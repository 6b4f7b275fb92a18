-- ===== src/Volume/Fat32/Realloc/Extend.antt =====
-- EXTEND_TAIL_CONTIGUOUS: the chain grows into the clusters behind its last one.
use bas_cpp.Prelude.{
  ℕ, zero, suc, ◌+◌, ◌≤◌, ◌<◌, ◌≡◌, ◌≢◌, inl, inr, refl, sym, subst, ◌∙◌, Bool, true, false, List,
  [], ◌∷◌, ◌++◌, append_assoc, append-nil, arith, ◌==◌, ltb, Bool-cases, ltb→lt, list_ext, eq_cases,
  ==_iff,
}
use bas_cpp.Volume.Fat32.ClusterManager.{Fat, fat_entries, entry_at, put_entry}
use bas_cpp.Volume.Fat32.ClusterManager.Entries.{fat_entries-put_entry, entry_at-put_entry_ne}
use bas_cpp.Volume.Fat32.ClusterManager.FreeRuns.{AllFree}
use bas_cpp.Volume.Fat32.Chain.{Outcome, end_of_chain}
use bas_cpp.Volume.Fat32.Chain.Frame.{get_entry-ok, get_entry-throws, set_entry-ok}
use bas_cpp.Volume.Fat32.Chain.Allocated.{IsAllocated, entry_at-put_cluster}
use bas_cpp.Volume.Fat32.Chain.Growth.{
  grow, fat_entries-grow, entry_at-grow_ne, CanGrow, All-last, IsAllocated-grow,
}
use bas_cpp.Volume.Fat32.Chain.Runs.{range}
use bas_cpp.Volume.Fat32.Realloc.{tail_free, extend_run}

-- What the look at the clusters from `c` on found; the table stays.
abbrev pub TailFree : ℕ → ℕ → Fat → Outcome Bool → Type 0
TailFree n c f (Outcome.ok true f') = (f' ≡ f) × AllFree f.entries c n × (c + n ≤ fat_entries f)
TailFree n c f (Outcome.ok false f') = f' ≡ f
TailFree n c f (Outcome.throws f') = f' ≡ f
TailFree n c f (Outcome.out_of_fuel f') = ⊥

TailFree-suc :
    (n c : ℕ) (f : Fat) (r : Outcome Bool)
    → entry_at f c ≡ 0
    → TailFree n (c + 1) f r
    → TailFree (suc n) c f r
TailFree-suc n c f (Outcome.ok true f') free h = (
  h.0,
  λ k lo hi. elim (eq_cases c k) [
    | inl e ↦ subst (λ k. entry_at f k ≡ 0) e free
    | inr ne ↦ h.1 k (omega arith) (omega arith)
  ],
  let b = h.2 in omega (arith, b),
)
TailFree-suc n c f (Outcome.ok false f') free h = h
TailFree-suc n c f (Outcome.throws f') free h = h
TailFree-suc n c f (Outcome.out_of_fuel f') free h = h

pub tail_free-TailFree : (n c : ℕ) (f : Fat) → c ≤ fat_entries f → TailFree n c f (tail_free n c f)
unfolding tail_free
tail_free-TailFree zero c f low = (refl, λ k lo hi. absurd (omega arith), omega arith)
tail_free-TailFree (suc n) c f low =
    let later : c < fat_entries f → TailFree n (c + 1) f (tail_free n (c + 1) f) =
      λ valid. tail_free-TailFree n (c + 1) f (omega arith) in
    elim (Bool-cases (ltb c (fat_entries f))) [
      | inr invalid ↦ rw (get_entry-throws f c invalid) refl
      | inl valid ↦
          let v = ltb→lt c (fat_entries f) valid in
          rw (get_entry-ok f c v) (elim (Bool-cases (entry_at f c == 0)) [
            | inl e ↦
                let free : entry_at f c ≡ 0 = (==_iff (entry_at f c) 0).0 e in
                rw e (TailFree-suc n c f (tail_free n (c + 1) f) free (later v))
            | inr e ↦ rw e refl
          ])
    ]

-- One round of the loop.
abbrev stretch : Fat → ℕ → ℕ → Fat
stretch f p c = put_entry (put_entry f p c) c end_of_chain

-- The entries are those of the growth of a chain, whose writes come in the other order.
entries-stretch :
    (f : Fat) (p c : ℕ)
    → p < fat_entries f
    → c < fat_entries f
    → p ≢ c
    → fat_entries f ≤ end_of_chain
    → (stretch f p c).entries ≡ (grow f p c).entries
entries-stretch f p c hp hc ne small =
    let marked = put_entry f c end_of_chain in
    let linked = put_entry f p c in
    let len₁ = fat_entries-put_entry linked c end_of_chain ∙ fat_entries-put_entry f p c in
    let len₂ = fat_entries-grow f p c in
    let len₃ = fat_entries-put_entry f p c in
    let len₄ = fat_entries-put_entry f c end_of_chain in
    list_ext (stretch f p c).entries (grow f p c).entries 0 (len₁ ∙ sym len₂) (λ k b.
      elim (eq_cases c k) [
        | inl e ↦
            subst (λ k. entry_at (stretch f p c) k ≡ entry_at (grow f p c) k) e
              (entry_at-put_cluster linked c end_of_chain (rw len₃ hc) (omega arith)
                ∙ sym (
                    entry_at-put_entry_ne marked p c c ne
                    ∙ entry_at-put_cluster f c end_of_chain hc (omega arith)))
        | inr nc ↦ elim (eq_cases p k) [
          | inl e ↦
              subst (λ k. entry_at (stretch f p c) k ≡ entry_at (grow f p c) k) e
                (entry_at-put_entry_ne linked c end_of_chain p (λ e. ne (sym e))
                  ∙ entry_at-put_cluster f p c hp (omega arith)
                  ∙ sym (entry_at-put_cluster marked p c (rw len₄ hp) (omega arith)))
          | inr np ↦
              entry_at-put_entry_ne linked c end_of_chain k nc
              ∙ entry_at-put_entry_ne f p c k np
              ∙ sym (entry_at-grow_ne f p c k nc np)
        ]
      ])

extend_run_step :
    (n p : ℕ) (out : List ℕ) (f : Fat)
    → p < fat_entries f
    → p + 1 < fat_entries f
    → extend_run (suc n) p out f ≡ extend_run n (p + 1) (out ++ (p + 1) ∷ []) (stretch f p (p + 1))
unfolding extend_run
extend_run_step n p out f hp hc =
    let len = fat_entries-put_entry f p (p + 1) in
    rw
      (
        set_entry-ok f p (p + 1) hp,
        set_entry-ok (put_entry f p (p + 1)) (p + 1) end_of_chain (rw len hc),
      )
      refl

extend_run_done : (p : ℕ) (out : List ℕ) (f : Fat) → extend_run 0 p out f ≡ Outcome.ok out f
unfolding extend_run
extend_run_done p out f = refl

pub extend_run-IsAllocated :
    (n p : ℕ) (before init : List ℕ) (f : Fat)
    → fat_entries f ≤ end_of_chain
    → IsAllocated before (init ++ p ∷ []) f.entries
    → AllFree f.entries (p + 1) n
    → p + 1 + n ≤ fat_entries f
    → (after : Fat) × (extend_run n p (init ++ p ∷ []) f
        ≡ Outcome.ok ((init ++ p ∷ []) ++ range (p + 1) n) after)
      × IsAllocated before ((init ++ p ∷ []) ++ range (p + 1) n) after.entries
extend_run-IsAllocated zero p before init f small h free room =
    let out = init ++ p ∷ [] in rw (append-nil out) (f, extend_run_done p out f, h)
extend_run-IsAllocated (suc n) p before init f small h free room =
    let out = init ++ p ∷ [] in
    let c = p + 1 in
    let next = stretch f p c in
    let chain = h.chain in
    let last = All-last (λ c. (2 ≤ c) × (c < fat_entries f)) init p chain.in_range in
    let can : CanGrow before init p c f = record {
      small = small;
      so_far = h;
      low = omega (arith, last);
      valid = omega arith;
      free = free c (omega arith) (omega arith);
    } in
    let same = entries-stretch f p c (omega arith) (omega arith) (omega arith) small in
    let len =
      fat_entries-put_entry (put_entry f p c) c end_of_chain ∙ fat_entries-put_entry f p c in
    let (after, runs, h') =
      extend_run-IsAllocated n c before out next (rw len small)
        (rw same (IsAllocated-grow before init p c f can))
        (λ k lo hi.
          entry_at-put_entry_ne (put_entry f p c) c end_of_chain k (omega arith)
          ∙ entry_at-put_entry_ne f p c k (omega arith)
          ∙ free k (omega arith) (omega arith))
        (omega (arith, len, room)) in
    let joined = append_assoc out (c ∷ []) (range (c + 1) n) in
    (
      after,
      extend_run_step n p out f (omega arith) (omega arith) ∙ rw joined at runs,
      rw joined at h',
    )
