-- ===== src/Volume/Fat32/Realloc/Total.antt =====
-- reallocClusters for every chain and every number of clusters.
use bas_cpp.Prelude.{
  ℕ, zero, suc, ◌+◌, ◌-◌, ◌≤◌, ◌<◌, ◌≡◌, inl, inr, refl, subst, Bool, true, false, List, [], ◌∷◌,
  arith, ◌==◌, ==_iff, ltb, ltb→lt, if◌then◌else◌, Bool-cases, length,
}
use bas_cpp.Volume.Fat32.ClusterManager.{Fat, fat_entries}
use bas_cpp.Volume.Fat32.Chain.{Outcome, Op, and_then, done, end_of_chain, ◌>>=◌}
use bas_cpp.Volume.Fat32.Chain.Linked.{IsChain}
use bas_cpp.Volume.Fat32.Chain.Free.{IsFreed}
use bas_cpp.Volume.Fat32.Realloc.{
  Reallocated, ReallocStrategy, flushed, free_all, back, tail_free, move_strategy,
  analyze_realloc_strategy, apply_strategy, realloc_table,
}
use bas_cpp.Volume.Fat32.Realloc.Spec.{IsReallocated, IsReallocation, free_all_frees}
use bas_cpp.Volume.Fat32.Realloc.Shrink.{InRange-back, shrink-IsReallocation}
use bas_cpp.Volume.Fat32.Realloc.Extend.{TailFree, tail_free-TailFree}
use bas_cpp.Volume.Fat32.Realloc.Outcomes.{extend-IsReallocation, move-IsReallocation}

-- The size is 0.
free_everything :
    (f after : Fat) (clusters : List ℕ)
    → IsFreed f clusters after
    → IsReallocated f.entries clusters 0 [] after.entries
free_everything f after clusters h = record {
  count = refl;
  same_length = h.same_length;
  chain = record { linked = tt; distinct = tt; in_range = tt };
  came_free = λ k m. absurd m;
  left_free = λ k m n. h.cleared k m;
  others = λ k m n. h.others k m;
}

nothing_needed :
    (f after : Fat) (clusters : List ℕ)
    → free_all clusters f ≡ Outcome.ok tt after
    → realloc_table clusters 0 f ≡ Outcome.ok (flushed []) after
unfolding realloc_table
nothing_needed f after clusters h = rw h refl

kept :
    (f : Fat) (clusters : List ℕ)
    → IsChain f.entries clusters
    → IsReallocated f.entries clusters (length clusters) clusters f.entries
kept f clusters h = record {
  count = refl;
  same_length = refl;
  chain = h;
  came_free = λ k m. inl m;
  left_free = λ k m n. absurd (n m);
  others = λ k m n. refl;
}

-- The choice between growth in place and a move.
abbrev grow_or_move : ℕ → Bool → Op ReallocStrategy
grow_or_move need contiguous =
    if contiguous then done ReallocStrategy.extend_tail_contiguous else move_strategy need

abbrev after_look : List ℕ → ℕ → Outcome Bool → Outcome Reallocated
after_look clusters need r =
    and_then (and_then r (grow_or_move need)) (apply_strategy clusters need)

after_look-IsReallocation :
    (f : Fat) (c : ℕ) (cs : List ℕ) (need : ℕ) (r : Outcome Bool)
    → length (c ∷ cs) < need
    → fat_entries f ≤ end_of_chain
    → IsChain f.entries (c ∷ cs)
    → TailFree (need - length (c ∷ cs)) (back (c ∷ cs) + 1) f r
    → IsReallocation f.entries (c ∷ cs) need (after_look (c ∷ cs) need r)
unfolding apply_strategy
after_look-IsReallocation f c cs need (Outcome.ok true f') more small old h =
    rw h.0 (extend-IsReallocation f c cs need (omega arith) small old h.1 h.2)
after_look-IsReallocation f c cs need (Outcome.ok false f') more small old h =
    rw h (move-IsReallocation f (c ∷ cs) need (omega arith) small old)
after_look-IsReallocation f c cs need (Outcome.throws f') more small old h = rw h refl
after_look-IsReallocation f c cs need (Outcome.out_of_fuel f') more small old h = absurd h

grows-IsReallocation :
    (f : Fat) (clusters : List ℕ) (need : ℕ)
    → length clusters < need
    → fat_entries f ≤ end_of_chain
    → IsChain f.entries clusters
    → IsReallocation f.entries clusters need
        ((analyze_realloc_strategy clusters need >>= apply_strategy clusters need) f)
unfolding analyze_realloc_strategy
grows-IsReallocation f [] need more small old =
    let e : (0 == need) ≡ false = ground arith in
    let e' : ltb need 0 ≡ false = ground arith in
    rw (e, e') (move-IsReallocation f [] need more small old)
grows-IsReallocation f (c ∷ cs) need more small old =
    let e : (suc (length cs) == need) ≡ false = ground arith in
    let e' : ltb need (suc (length cs)) ≡ false = ground arith in
    let last = InRange-back (fat_entries f) c cs old.in_range in
    rw (e, e')
      (after_look-IsReallocation f c cs need
        (tail_free (need - length (c ∷ cs)) (back (c ∷ cs) + 1) f) more small old
        (tail_free-TailFree (need - length (c ∷ cs)) (back (c ∷ cs) + 1) f (omega (arith, last))))

analyzed-IsReallocation :
    (f : Fat) (clusters : List ℕ) (need : ℕ)
    → 0 < need
    → fat_entries f ≤ end_of_chain
    → IsChain f.entries clusters
    → IsReallocation f.entries clusters need
        ((analyze_realloc_strategy clusters need >>= apply_strategy clusters need) f)
unfolding analyze_realloc_strategy apply_strategy
analyzed-IsReallocation f clusters need pos small old =
    elim (Bool-cases (length clusters == need)) [
      | inl e ↦
          let same : length clusters ≡ need = (==_iff (length clusters) need).0 e in
          rw e (
            subst (λ m. IsReallocated f.entries clusters m clusters f.entries) same
              (kept f clusters old))
      | inr e ↦ elim (Bool-cases (ltb need (length clusters))) [
        | inl l ↦
            let less = ltb→lt need (length clusters) l in
            rw (e, l) (shrink-IsReallocation f clusters need pos (omega arith) small old)
        | inr l ↦ grows-IsReallocation f clusters need (ground arith) small old
      ]
    ]

-- Reallocation of a chain, in a table of at most 2^28 - 8 entries and whatever strategy is chosen: the
-- answer is a chain of exactly the number of clusters that is needed, each of them of the old chain or
-- formerly free, the clusters that left the chain are free, and no other entry differs; or it throws
-- and the entries are as they were. It never runs out of fuel.
pub realloc_table-IsReallocation :
    (f : Fat) (clusters : List ℕ) (need : ℕ)
    → fat_entries f ≤ end_of_chain
    → IsChain f.entries clusters
    → IsReallocation f.entries clusters need (realloc_table clusters need f)
realloc_table-IsReallocation f clusters zero small old =
    let (after, frees, h) = free_all_frees f clusters small old in
    rw (nothing_needed f after clusters frees) (free_everything f after clusters h)
realloc_table-IsReallocation f clusters (suc n) small old =
    let e : (suc n == 0) ≡ false = ground arith in
    unfold realloc_table in
    rw e (analyzed-IsReallocation f clusters (suc n) (omega arith) small old)
