-- ===== src/Volume/Fat32/Flush/Runs.antt =====
-- What flushDirty writes: after it, each cluster of the runs is clean, and no other byte has changed.
use bas_cpp.Prelude.{
  put_bytes, length-put_bytes, get_or-put_bytes_out, ℕ, ◌+◌, ◌-◌, ◌*◌, ◌^◌, ◌≤◌, ◌<◌, ◌≡◌, ◌⊎◌, inl,
  inr, refl, Bool, true, false, some, List, [], ◌∷◌, arith, ◌==◌, ltb, Bool-cases, get_or, All, Any,
  ◌||◌, sym, subst, ◌∙◌,
}
use native.Mathlib.Decide.{dec_lt}
use bas_cpp.Volume.Device.{size, write_device}
use bas_cpp.Volume.Fat32.ClusterManager.{fat_entries, normalize_value}
use bas_cpp.Volume.Fat32.Flush.{Disk, block_of, write_run, written, flush_runs}
use bas_cpp.Volume.Fat32.Flush.Words.{length-block_of, word_at-put_block_in, word_at-put_block_out}
use bas_cpp.Volume.Fat32.Flush.Coherence.{Ready, IsClean, SameRest}

-- The disk after the write of the run from `start` to `end`.
abbrev after_run : Disk → ℕ → ℕ → Disk
after_run d start end = record d {
  device = record d.device {
    bytes =
        put_bytes d.device.bytes (d.fat_offset + start * 4)
          (block_of d.fat.entries start (end - start + 1));
  };
}

abbrev RunInRange : Disk → ℕ → ℕ → Type 0
RunInRange d start end = (start ≤ end) × (end < fat_entries d.fat)

write_run-some :
    (d : Disk) (start end : ℕ)
    → Ready d
    → RunInRange d start end
    → write_run d start end ≡ some (after_run d start end)
unfolding write_run write_device written
write_run-some d start end ready b =
    let len = length-block_of d.fat.entries start (end - start + 1) in
    let w = ready.writable in
    let room = ready.room in
    let fits : ((end - start + 1) * 4 == 0)
          || ltb (size d.device) (d.fat_offset + start * 4 + (end - start + 1) * 4)
        ≡ false =
      ground arith in
    rw (w, len, fits) refl

small_word : (v : ℕ) → v < 2 ^ 28 → v < 2 ^ 32
small_word v h = omega arith

normalize_value_small : (v : ℕ) → v < 2 ^ 28 → normalize_value v ≡ v
normalize_value_small v h = omega arith

after_run-IsClean :
    (d : Disk) (start end c : ℕ)
    → Ready d
    → RunInRange d start end
    → IsClean d c ⊎ ((start ≤ c) × (c ≤ end))
    → IsClean (after_run d start end) c
after_run-IsClean d start end c ready b h =
    let n = end - start + 1 in
    let small = ready.small in
    let room = ready.room in
    let whole : start + n ≡ end + 1 = omega arith in
    let entries_small = λ (k : ℕ). small_word (get_or d.fat.entries k 0) (small k) in
    let inside : start ≤ c → c ≤ end → IsClean (after_run d start end) c = λ lo hi.
      rw
        (word_at-put_block_in d.fat.entries d.fat_offset start n c d.device.bytes entries_small lo
          (omega arith) (omega arith))
        (normalize_value_small (get_or d.fat.entries c 0) (small c)) in
    let kept : IsClean d c → (c < start) ⊎ (start + n ≤ c) → IsClean (after_run d start end) c =
      λ h o. rw (word_at-put_block_out d.fat.entries d.fat_offset start n c d.device.bytes o) h in
    elim h [
      | inr b ↦ inside b.0 b.1
      | inl h ↦ elim (dec_lt c start) [
        | yes lo ↦ kept h (inl lo)
        | no lo ↦ elim (dec_lt end c) [
          | yes hi ↦ kept h (inr (omega arith))
          | no hi ↦ inside (omega arith) (omega arith)
        ]
      ]
    ]

after_run-SameRest :
    (d : Disk) (start end : ℕ)
    → Ready d
    → RunInRange d start end
    → SameRest d (after_run d start end)
after_run-SameRest d start end ready b = record {
  same_offset = refl;
  same_own = refl;
  same_size =
      length-put_bytes d.device.bytes (d.fat_offset + start * 4)
        (block_of d.fat.entries start (end - start + 1));
  outside = λ i h.
      let room = ready.room in
      let len = length-block_of d.fat.entries start (end - start + 1) in
      get_or-put_bytes_out d.device.bytes (d.fat_offset + start * 4) i
        (block_of d.fat.entries start (end - start + 1))
        (elim h [ inl lo ↦ inl (omega arith) | inr hi ↦ inr (omega (arith, len)) ]);
}

after_run-Ready :
    (d : Disk) (start end : ℕ) → Ready d → RunInRange d start end → Ready (after_run d start end)
after_run-Ready d start end ready b =
    let kept = after_run-SameRest d start end ready b in
    let room = ready.room in
    let size_kept = kept.same_size in
    record { small = ready.small; room = omega (arith, size_kept); writable = ready.writable }

pub SameRest-refl : (d : Disk) → SameRest d d
SameRest-refl d = record {
  same_offset = refl;
  same_own = refl;
  same_size = refl;
  outside = λ i h. refl;
}

-- What a flush from `d` with the given clusters in its runs comes to.
pub record Flushed (d : Disk) (Target : ℕ → Type 0) (r : Bool × Disk) : Type 0 where
  pub ok : r.0 ≡ true
  pub same_fat : r.1.fat ≡ d.fat
  pub rest : SameRest d r.1
  pub clean : (c : ℕ) → c < fat_entries d.fat → IsClean d c ⊎ Target c → IsClean r.1 c

abbrev InRuns : ℕ → ℕ → List ℕ → ℕ → Type 0
InRuns start end rest c = ((start ≤ c) × (c ≤ end)) ⊎ Any (λ x. x ≡ c) rest

one_run :
    (d : Disk) (start end : ℕ)
    → Ready d
    → RunInRange d start end
    → Flushed d (InRuns start end []) (true, after_run d start end)
one_run d start end ready b = record {
  ok = refl;
  same_fat = refl;
  rest = after_run-SameRest d start end ready b;
  clean = λ c hc h.
      after_run-IsClean d start end c ready b
        (elim h [ inl h ↦ inl h | inr (inl h) ↦ inr h | inr (inr e) ↦ absurd e ]);
}

-- The run grows by the next cluster.
longer_run :
    (d : Disk) (start end : ℕ) (rest : List ℕ) (r : Bool × Disk)
    → start ≤ end
    → Flushed d (InRuns start (end + 1) rest) r
    → Flushed d (InRuns start end ((end + 1) ∷ rest)) r
longer_run d start end rest r b h = record {
  ok = h.ok;
  same_fat = h.same_fat;
  rest = h.rest;
  clean = λ c hc t. h.clean c hc (elim t [
    | inl k ↦ inl k
    | inr (inl k) ↦ inr (inl (k.0, omega arith))
    | inr (inr (inl e)) ↦ inr (inl (omega (arith, e), omega (arith, e)))
    | inr (inr (inr m)) ↦ inr (inr m)
  ]);
}

-- A run is written, and another begins.
next_run :
    (d : Disk) (start end c : ℕ) (rest : List ℕ) (r : Bool × Disk)
    → Ready d
    → RunInRange d start end
    → Flushed (after_run d start end) (InRuns c c rest) r
    → Flushed d (InRuns start end (c ∷ rest)) r
next_run d start end c rest r ready b h =
    let first = one_run d start end ready b in
    let r₁ = first.rest in
    let r₂ = h.rest in
    record {
      ok = h.ok;
      same_fat = h.same_fat;
      rest = record {
        same_offset = r₂.same_offset;
        same_own = r₂.same_own;
        same_size = r₂.same_size ∙ r₁.same_size;
        outside = λ i o. r₂.outside i o ∙ r₁.outside i o;
      };
      clean = λ x hx t. h.clean x hx (elim t [
        | inl k ↦ inl (first.clean x hx (inl k))
        | inr (inl k) ↦ inl (first.clean x hx (inr (inl k)))
        | inr (inr (inl e)) ↦ inr (inl (omega (arith, e), omega (arith, e)))
        | inr (inr (inr m)) ↦ inr (inr m)
      ]);
    }

pub flush_runs-Flushed :
    (d : Disk) (start end : ℕ) (rest : List ℕ)
    → Ready d
    → RunInRange d start end
    → All (λ c. c < fat_entries d.fat) rest
    → Flushed d (InRuns start end rest) (flush_runs d start end rest)
unfolding flush_runs
flush_runs-Flushed d start end [] ready b all =
    rw (write_run-some d start end ready b) (one_run d start end ready b)
flush_runs-Flushed d start end (c ∷ rest) ready b all =
    let longer =
      λ (h : c ≡ end + 1). flush_runs-Flushed d start c rest ready (omega arith, all.0) all.1 in
    let next =
      flush_runs-Flushed (after_run d start end) c c rest (after_run-Ready d start end ready b)
        (omega arith, all.0) all.1 in
    elim (Bool-cases (c == end + 1)) [
      | inl e ↦
          let same : c ≡ end + 1 = ground arith in
          rw e (
            subst
              (λ x.
                Flushed d (InRuns start x rest) (flush_runs d start x rest)
                → Flushed d (InRuns start end (x ∷ rest)) (flush_runs d start x rest))
              (sym same) (longer_run d start end rest (flush_runs d start (end + 1) rest) b.0)
              (longer same))
      | inr e ↦
          rw (e, write_run-some d start end ready b)
            (next_run d start end c rest (flush_runs (after_run d start end) c c rest) ready b next)
    ]
