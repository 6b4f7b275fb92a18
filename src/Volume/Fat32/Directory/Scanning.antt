-- ===== src/Volume/Fat32/Directory/Scanning.antt =====
-- What the search of writeDirectoryEntryToDisk for free slots knows, round by round.
use bas_cpp.Prelude.{
  ℕ, suc, ◌+◌, ◌≤◌, ◌<◌, ◌≡◌, ◌≢◌, ◌⊎◌, inl, inr, refl, false, ◌||◌, Option, none, some, [], ◌∷◌,
  arith, if◌then◌else◌, ◌==◌, leb, Bool-cases, eq_cases, length, get_or, Bytes,
}
use bas_cpp.Volume.Fat32.Directory.{
  Scan, scan_start, first_candidate, scan_used, scan_empty, scan_slot, scan_slots,
}

-- The first byte of a slot that was deleted.
abbrev pub IsDeleted : ℕ → Type 0
IsDeleted b = (b ≡ 229) ⊎ (b ≡ 5)

-- What the search knows of the first `i` slots, whose first bytes `at` tells.
pub record Scanned (required : ℕ) (at : ℕ → ℕ) (i : ℕ) (s : Scan) : Type 0 where
  -- before the end marker
  pub counted : s.empty_start ≡ none → s.slot ≡ i
  pub all_used : s.empty_start ≡ none → (k : ℕ) → k < i → at k ≢ 0
  pub run_in : s.empty_start ≡ none → s.deleted_len ≤ i
  pub run_from : s.empty_start ≡ none → 0 < s.deleted_len → s.deleted_start + s.deleted_len ≡ i
  pub run_deleted :
      s.empty_start ≡ none → (k : ℕ) → i ≤ k + s.deleted_len → k < i → IsDeleted (at k)
  -- from it on
  pub marker_in : (e : ℕ) → s.empty_start ≡ some e → e + s.empty_len ≤ i
  pub used_before : (e : ℕ) → s.empty_start ≡ some e → (k : ℕ) → k < e → at k ≢ 0
  pub empty_from :
      (e : ℕ) → s.empty_start ≡ some e → (k : ℕ) → e ≤ k → k < e + s.empty_len → at k ≡ 0
  pub all_empty : (e : ℕ) → s.empty_start ≡ some e → s.broke ≡ false → e + s.empty_len ≡ i
  -- the run of deleted slots
  pub candidate_in : (c : ℕ) → s.candidate ≡ some c → c + required ≤ i
  pub candidate_used : (c : ℕ) → s.candidate ≡ some c → (k : ℕ) → k < c → at k ≢ 0
  pub candidate_deleted :
      (c : ℕ) → s.candidate ≡ some c → (k : ℕ) → c ≤ k → k < c + required → IsDeleted (at k)

module _ (required : ℕ) (at : ℕ → ℕ) where
  pub start-Scanned : Scanned required at 0 scan_start
  start-Scanned = record {
    counted = λ _. refl;
    all_used = λ _ k h. absurd (omega (arith, h));
    run_in = λ _. omega arith;
    run_from = λ _ h. absurd (omega (arith, h));
    run_deleted = λ _ k _ h. absurd (omega (arith, h));
    marker_in = λ e h. absurd cc;
    used_before = λ e h. absurd cc;
    empty_from = λ e h. absurd cc;
    all_empty = λ e h. absurd cc;
    candidate_in = λ c h. absurd cc;
    candidate_used = λ c h. absurd cc;
    candidate_deleted = λ c h. absurd cc;
  }

  -- The three kinds of slots before the end marker.
  marker-Scanned :
      (i : ℕ) (s : Scan)
      → Scanned required at i s
      → s.empty_start ≡ none
      → at i ≡ 0
      → Scanned required at
          (i + 1)
          (record s { empty_start = some s.slot; empty_len = 1; deleted_len = 0 })
  marker-Scanned i s h none_yet zero_byte =
      let slot = h.counted none_yet in
      record {
        counted = λ e. absurd cc;
        all_used = λ e. absurd cc;
        run_in = λ e. absurd cc;
        run_from = λ e. absurd cc;
        run_deleted = λ e. absurd cc;
        marker_in = λ e same. let eq : s.slot ≡ e = cc in omega (arith, eq, slot);
        used_before = λ e same k b.
            let eq : s.slot ≡ e = cc in h.all_used none_yet k (omega (arith, eq, slot, b));
        empty_from = λ e same k from to.
            let eq : s.slot ≡ e = cc in
            let here : i ≡ k = omega (arith, eq, slot, from, to) in rw (← here) zero_byte;
        all_empty = λ e same _. let eq : s.slot ≡ e = cc in omega (arith, eq, slot);
        candidate_in = λ c same. let b = h.candidate_in c same in omega (arith, b);
        candidate_used = h.candidate_used;
        candidate_deleted = h.candidate_deleted;
      }

  used-Scanned :
      (i : ℕ) (s : Scan)
      → Scanned required at i s
      → s.empty_start ≡ none
      → at i ≢ 0
      → Scanned required at (i + 1) (record s { slot = s.slot + 1; deleted_len = 0 })
  used-Scanned i s h none_yet used =
      let slot = h.counted none_yet in
      record {
        counted = λ _. omega (arith, slot);
        all_used = λ _ k b. elim (eq_cases k i) [
          | inl e ↦ rw e used
          | inr ne ↦ h.all_used none_yet k (omega (arith, ne, b))
        ];
        run_in = λ _. omega arith;
        run_from = λ _ p. absurd (omega (arith, p));
        run_deleted = λ _ k a b. absurd (omega (arith, a, b));
        marker_in = λ e same. absurd cc;
        used_before = λ e same. absurd cc;
        empty_from = λ e same. absurd cc;
        all_empty = λ e same. absurd cc;
        candidate_in = λ c same. let b = h.candidate_in c same in omega (arith, b);
        candidate_used = h.candidate_used;
        candidate_deleted = h.candidate_deleted;
      }

  first_candidate-cases :
      (start len c : ℕ) (o : Option ℕ)
      → first_candidate required start len o ≡ some c
      → (o ≡ some c) ⊎ ((required ≤ len) × (start ≡ c))
  unfolding first_candidate
  first_candidate-cases start len c (some c') e = inl e
  first_candidate-cases start len c none e = elim (Bool-cases (leb required len)) [
    | inl t ↦ let same : start ≡ c = cc (rw t at e) in inr (ground (arith, t), same)
    | inr t ↦ absurd cc (rw t at e)
  ]

  not_zero : (b : ℕ) → IsDeleted b → b ≢ 0
  not_zero b (inl e) z = omega (arith, e, z)
  not_zero b (inr e) z = omega (arith, e, z)

  -- The run of deleted slots, with a slot more.
  deleted-Scanned :
      (i : ℕ) (s : Scan) (start : ℕ)
      → Scanned required at i s
      → s.empty_start ≡ none
      → IsDeleted (at i)
      → start ≡ (if s.deleted_len == 0 then s.slot else s.deleted_start)
      → Scanned required at (i + 1) (record s {
        slot = s.slot + 1;
        deleted_start = start;
        deleted_len = s.deleted_len + 1;
        candidate = first_candidate required start (s.deleted_len + 1) s.candidate;
      })
  deleted-Scanned i s start h none_yet deleted e =
      let slot = h.counted none_yet in
      let run = h.run_in none_yet in
      let from : start + s.deleted_len ≡ i = elim (Bool-cases (s.deleted_len == 0)) [
        | inl z ↦
            let at_slot : start ≡ s.slot = rw z at e in
            let no_run : s.deleted_len ≡ 0 = ground (arith, z) in
            omega (arith, at_slot, slot, no_run)
        | inr nz ↦
            let at_start : start ≡ s.deleted_start = rw nz at e in
            let known = h.run_from none_yet (ground (arith, nz)) in omega (arith, at_start, known)
      ] in
      let used : (k : ℕ) → k < i + 1 → at k ≢ 0 = λ k b. elim (eq_cases k i) [
        | inl same ↦ rw same (not_zero (at i) deleted)
        | inr ne ↦ h.all_used none_yet k (omega (arith, ne, b))
      ] in
      let in_run : (k : ℕ) → start ≤ k → k < i + 1 → IsDeleted (at k) = λ k a b.
        elim (eq_cases k i) [
          | inl same ↦ rw same deleted
          | inr ne ↦ h.run_deleted none_yet k (omega (arith, a, from)) (omega (arith, ne, b))
        ] in
      let new = first_candidate-cases start (s.deleted_len + 1) in
      record {
        counted = λ _. omega (arith, slot);
        all_used = λ _. used;
        run_in = λ _. omega (arith, run);
        run_from = λ _ _. omega (arith, from);
        run_deleted = λ _ k a b. in_run k (omega (arith, a, from)) b;
        marker_in = λ e same. absurd cc;
        used_before = λ e same. absurd cc;
        empty_from = λ e same. absurd cc;
        all_empty = λ e same. absurd cc;
        candidate_in = λ c same. elim (new c s.candidate same) [
          | inl old ↦ let b = h.candidate_in c old in omega (arith, b)
          | inr (enough, e') ↦ omega (arith, enough, e', from)
        ];
        candidate_used = λ c same k b. elim (new c s.candidate same) [
          | inl old ↦ h.candidate_used c old k b
          | inr (enough, e') ↦ used k (omega (arith, b, e', from))
        ];
        candidate_deleted = λ c same k a b. elim (new c s.candidate same) [
          | inl old ↦ h.candidate_deleted c old k a b
          | inr (enough, e') ↦ in_run k (omega (arith, a, e')) (omega (arith, b, enough, e', from))
        ];
      }

  scan_used-Scanned :
      (i : ℕ) (s : Scan)
      → Scanned required at i s
      → s.empty_start ≡ none
      → Scanned required at (i + 1) (scan_used required s (at i))
  unfolding scan_used
  scan_used-Scanned i s h none_yet = elim (Bool-cases (at i == 0)) [
    | inl e ↦ rw e (marker-Scanned i s h none_yet (ground (arith, e)))
    | inr e ↦ elim (Bool-cases ((at i == 229) || (at i == 5))) [
      | inl f ↦
          rw (e, f)
            (deleted-Scanned i s (if s.deleted_len == 0 then s.slot else s.deleted_start) h none_yet
              (ground (arith, f)) refl)
      | inr f ↦ rw (e, f) (used-Scanned i s h none_yet (ground (arith, e)))
    ]
  ]

  -- A slot from the end marker on.
  scan_empty-Scanned :
      (i : ℕ) (s : Scan) (start : ℕ)
      → Scanned required at i s
      → s.empty_start ≡ some start
      → s.broke ≡ false
      → Scanned required at (i + 1) (scan_empty s (at i))
  unfolding scan_empty
  scan_empty-Scanned i s start h found going = elim (Bool-cases (at i == 0)) [
    | inl z ↦
        let zero_byte : at i ≡ 0 = ground (arith, z) in
        rw z (record {
          counted = λ e. absurd cc;
          all_used = λ e. absurd cc;
          run_in = λ e. absurd cc;
          run_from = λ e. absurd cc;
          run_deleted = λ e. absurd cc;
          marker_in = λ e same. let b = h.marker_in e same in omega (arith, b);
          used_before = h.used_before;
          empty_from = λ e same k a b. elim (eq_cases k i) [
            | inl here ↦ rw here zero_byte
            | inr ne ↦
                let all = h.all_empty e same going in
                h.empty_from e same k a (omega (arith, all, ne, b))
          ];
          all_empty = λ e same _. let all = h.all_empty e same going in omega (arith, all);
          candidate_in = λ c same. let b = h.candidate_in c same in omega (arith, b);
          candidate_used = h.candidate_used;
          candidate_deleted = h.candidate_deleted;
        })
    | inr nz ↦ rw nz (record {
      counted = λ e. absurd cc;
      all_used = λ e. absurd cc;
      run_in = λ e. absurd cc;
      run_from = λ e. absurd cc;
      run_deleted = λ e. absurd cc;
      marker_in = λ e same. let b = h.marker_in e same in omega (arith, b);
      used_before = h.used_before;
      empty_from = h.empty_from;
      all_empty = λ e same b. absurd cc;
      candidate_in = λ c same. let b = h.candidate_in c same in omega (arith, b);
      candidate_used = h.candidate_used;
      candidate_deleted = h.candidate_deleted;
    })
  ]

  scan_slot-Scanned :
      (i : ℕ) (s : Scan) (o : Option ℕ)
      → Scanned required at i s
      → s.empty_start ≡ o
      → s.broke ≡ false
      → Scanned required at (i + 1) (scan_slot required o s (at i))
  unfolding scan_slot
  scan_slot-Scanned i s none h e going = scan_used-Scanned i s h e
  scan_slot-Scanned i s (some start) h e going = scan_empty-Scanned i s start h e going

  -- The loop over slots: it has gone over all of them, unless something stands behind the end marker.
  pub scan_slots-Scanned :
      (bytes : Bytes) (i : ℕ) (s : Scan)
      → ((k : ℕ) → k < length bytes → get_or bytes k 1 ≡ at (i + k))
      → Scanned required at i s
      → s.broke ≡ false
      → (j : ℕ) × Scanned required at j (scan_slots required s bytes)
        × (j ≤ i + length bytes)
        × ((scan_slots required s bytes).broke ≡ false → j ≡ i + length bytes)
  unfolding scan_slots scan_slot
  scan_slots-Scanned [] i s same h going = (i, h, omega arith, λ _. omega arith)
  scan_slots-Scanned (b ∷ bytes) i s same h going =
      let next = scan_slot required s.empty_start s b in
      let here : i + 0 ≡ i = omega arith in
      let first : b ≡ at i = rw here at (same 0 (omega arith)) in
      let step : Scanned required at (i + 1) next =
        rw first (scan_slot-Scanned i s s.empty_start h refl going) in
      elim (Bool-cases next.broke) [
        | inl stopped ↦ rw stopped (i + 1, step, omega arith, λ e. absurd cc)
        | inr on ↦
            let (j, there, few, all) =
              scan_slots-Scanned bytes (i + 1) next
                (λ k b.
                  let at_k : i + suc k ≡ i + 1 + k = omega arith in
                  rw at_k at (same (suc k) (omega (arith, b))))
                step on in
            rw on (j, there, omega (arith, few), λ e. let l = all e in omega (arith, l))
      ]
