-- ===== src/Volume/Fat32/Realloc/Shrink.antt =====
-- SHRINK_TAIL: the tail of the chain is freed, and the last cluster that is kept ends the chain.
use bas_cpp.Prelude.{
  ℕ, zero, suc, ◌-◌, ◌≤◌, ◌<◌, ◌≡◌, ◌≢◌, inl, inr, refl, sym, ap, subst, ◌∙◌, List, [], ◌∷◌, ◌++◌,
  arith, length, get_or, take, drop, Any-append,
}
use bas_cpp.Volume.Fat32.ClusterManager.{Fat, fat_entries, put_entry}
use bas_cpp.Volume.Fat32.ClusterManager.Entries.{fat_entries-put_entry, entry_at-put_entry_ne}
use bas_cpp.Volume.Fat32.Chain.{Outcome, end_of_chain}
use bas_cpp.Volume.Fat32.Chain.Frame.{set_entry-ok}
use bas_cpp.Volume.Fat32.Chain.Linked.{Mem, Distinct, Linked, InRange, IsChain, IsChain-tail}
use bas_cpp.Volume.Fat32.Chain.Free.{IsFreed}
use bas_cpp.Volume.Fat32.Chain.Allocated.{entry_at-put_cluster}
use bas_cpp.Volume.Fat32.Realloc.{flushed, free_all, back, shrink}
use bas_cpp.Volume.Fat32.Realloc.Spec.{IsReallocated, IsReallocation, free_all_frees}

IsChain-append_right : (entries a b : List ℕ) → IsChain entries (a ++ b) → IsChain entries b
IsChain-append_right entries [] b h = h
IsChain-append_right entries (c ∷ a) b h =
    IsChain-append_right entries a b (IsChain-tail entries c (a ++ b) h)

Distinct-append : (a b : List ℕ) (k : ℕ) → Distinct (a ++ b) → Mem k a → ¬ Mem k b
Distinct-append [] b k d m n = m
Distinct-append (c ∷ a) b k d m n = elim m [
  | inl e ↦ d.0 (subst (λ x. Mem x (a ++ b)) (sym e) ((Any-append (λ x. x ≡ k) a b).1 (inr n)))
  | inr m ↦ Distinct-append a b k d.1 m n
]

Distinct-append_left : (a b : List ℕ) → Distinct (a ++ b) → Distinct a
Distinct-append_left [] b d = tt
Distinct-append_left (c ∷ a) b d =
    (λ m. d.0 ((Any-append (λ x. x ≡ c) a b).1 (inl m)), Distinct-append_left a b d.1)

InRange-append_left : (n : ℕ) (a b : List ℕ) → InRange n (a ++ b) → InRange n a
InRange-append_left n [] b h = tt
InRange-append_left n (c ∷ a) b h = (h.0, InRange-append_left n a b h.1)

pub Mem-back : (c : ℕ) (cs : List ℕ) → Mem (back (c ∷ cs)) (c ∷ cs)
Mem-back c [] = inl refl
Mem-back c (d ∷ cs) = inr (Mem-back d cs)

pub InRange-back :
    (n c : ℕ) (cs : List ℕ) → InRange n (c ∷ cs) → (2 ≤ back (c ∷ cs)) × (back (c ∷ cs) < n)
InRange-back n c [] h = h.0
InRange-back n c (d ∷ cs) h = InRange-back n d cs h.1

-- A chain that is cut after the clusters `c ∷ a`.
Linked-cut :
    (entries after : List ℕ) (c : ℕ) (a b : List ℕ)
    → ((k : ℕ) → Mem k (c ∷ a) → back (c ∷ a) ≢ k → get_or after k 0 ≡ get_or entries k 0)
    → get_or after (back (c ∷ a)) 0 ≡ end_of_chain
    → Distinct ((c ∷ a) ++ b)
    → Linked entries ((c ∷ a) ++ b)
    → Linked after (c ∷ a)
Linked-cut entries after c [] b same last d h = last
Linked-cut entries after c (x ∷ a) b same last d h = (
  same c (inl refl) (λ e. d.0 (
        subst (λ k. Mem k ((x ∷ a) ++ b)) e
          ((Any-append (λ k. k ≡ back (x ∷ a)) (x ∷ a) b).1 (inl (Mem-back x a)))))
      ∙ h.0,
  Linked-cut entries after x a b (λ k m. same k (inr m)) last d.1 h.1,
)

-- The table after the cut.
cut-IsReallocated :
    (f f₁ : Fat) (c : ℕ) (a b : List ℕ)
    → fat_entries f ≤ end_of_chain
    → IsChain f.entries ((c ∷ a) ++ b)
    → IsFreed f b f₁
    → IsReallocated f.entries
        ((c ∷ a) ++ b)
        (length (c ∷ a))
        (c ∷ a)
        (put_entry f₁ (back (c ∷ a)) end_of_chain).entries
cut-IsReallocated f f₁ c a b small h freed =
    let p = back (c ∷ a) in
    let after = put_entry f₁ p end_of_chain in
    let join = λ (k : ℕ). Any-append (λ x. x ≡ k) (c ∷ a) b in
    let len₁ = freed.same_length in
    let len = fat_entries-put_entry f₁ p end_of_chain ∙ len₁ in
    let range_a = InRange-append_left (fat_entries f) (c ∷ a) b h.in_range in
    let valid = InRange-back (fat_entries f) c a range_a in
    let elsewhere = λ (k : ℕ) (ne : p ≢ k). entry_at-put_entry_ne f₁ p end_of_chain k ne in
    let not_last = λ (k : ℕ) (n : ¬ Mem k (c ∷ a)) (e : p ≡ k).
      n (subst (λ x. Mem x (c ∷ a)) e (Mem-back c a)) in
    record {
      count = refl;
      same_length = len;
      chain = record {
        linked =
            Linked-cut f.entries after.entries c a b
              (λ k m ne. elsewhere k ne ∙ freed.others k (Distinct-append (c ∷ a) b k h.distinct m))
              (entry_at-put_cluster f₁ p end_of_chain (rw len₁ valid.1) (omega arith)) h.distinct
              h.linked;
        distinct = Distinct-append_left (c ∷ a) b h.distinct;
        in_range = subst (λ n. InRange n (c ∷ a)) (sym len) range_a;
      };
      came_free = λ k m. inl ((join k).1 (inl m));
      left_free = λ k m n. elim ((join k).0 m) [
        | inl in_a ↦ absurd (n in_a)
        | inr in_b ↦ elsewhere k (not_last k n) ∙ freed.cleared k in_b
      ];
      others =
          λ k m n. elsewhere k (not_last k n) ∙ freed.others k (λ in_b. m ((join k).1 (inr in_b)));
    }

take-drop : (n : ℕ) (cs : List ℕ) → take n cs ++ drop n cs ≡ cs
take-drop zero cs = refl
take-drop (suc n) [] = refl
take-drop (suc n) (c ∷ cs) = ap (λ xs. c ∷ xs) (take-drop n cs)

get_or-back :
    (n : ℕ) (c : ℕ) (cs : List ℕ) → n ≤ length cs → get_or (c ∷ cs) n 0 ≡ back (c ∷ take n cs)
get_or-back zero c cs h = refl
get_or-back (suc n) c [] h = absurd (omega arith)
get_or-back (suc n) c (d ∷ cs) h = get_or-back n d cs (omega arith)

length-take : (n : ℕ) (cs : List ℕ) → n ≤ length cs → length (take n cs) ≡ n
length-take zero cs h = refl
length-take (suc n) [] h = absurd (omega arith)
length-take (suc n) (c ∷ cs) h = ap suc (length-take n cs (omega arith))

shrink_ok :
    (clusters : List ℕ) (need p : ℕ) (f f₁ : Fat)
    → free_all (drop need clusters) f ≡ Outcome.ok tt f₁
    → get_or clusters (need - 1) 0 ≡ p
    → p < fat_entries f₁
    → shrink clusters need f
      ≡ Outcome.ok (flushed (take need clusters)) (put_entry f₁ p end_of_chain)
unfolding shrink
shrink_ok clusters need p f f₁ frees last valid =
    rw (frees, last, set_entry-ok f₁ p end_of_chain valid) refl

shrink_parts :
    (f : Fat) (c n : ℕ) (cs : List ℕ)
    → fat_entries f ≤ end_of_chain
    → n ≤ length cs
    → IsChain f.entries ((c ∷ take n cs) ++ drop n cs)
    → (after : Fat) × (shrink (c ∷ cs) (suc n) f ≡ Outcome.ok (flushed (c ∷ take n cs)) after)
      × IsReallocated f.entries ((c ∷ take n cs) ++ drop n cs) (suc n) (c ∷ take n cs) after.entries
shrink_parts f c n cs small short h =
    let a = take n cs in
    let b = drop n cs in
    let (f₁, frees, freed) =
      free_all_frees f b small (IsChain-append_right f.entries (c ∷ a) b h) in
    let p = back (c ∷ a) in
    let at : suc n - 1 ≡ n = omega arith in
    let last : get_or (c ∷ cs) (suc n - 1) 0 ≡ p = rw at (get_or-back n c cs short) in
    let len₁ = freed.same_length in
    let valid =
      InRange-back (fat_entries f) c a (InRange-append_left (fat_entries f) (c ∷ a) b h.in_range) in
    let kept : length (c ∷ a) ≡ suc n = ap suc (length-take n cs short) in
    (
      put_entry f₁ p end_of_chain,
      shrink_ok (c ∷ cs) (suc n) p f f₁ frees last (rw len₁ valid.1),
      subst
          (λ m.
            IsReallocated f.entries ((c ∷ a) ++ b) m (c ∷ a) (put_entry f₁ p end_of_chain).entries)
          kept (cut-IsReallocated f f₁ c a b small h freed),
    )

pub shrink-IsReallocation :
    (f : Fat) (clusters : List ℕ) (need : ℕ)
    → 0 < need
    → need ≤ length clusters
    → fat_entries f ≤ end_of_chain
    → IsChain f.entries clusters
    → IsReallocation f.entries clusters need (shrink clusters need f)
shrink-IsReallocation f clusters zero pos short small old = absurd (omega arith)
shrink-IsReallocation f [] (suc n) pos short small old = absurd (omega arith)
shrink-IsReallocation f (c ∷ cs) (suc n) pos short small old =
    let whole : (c ∷ take n cs) ++ drop n cs ≡ c ∷ cs = ap (λ xs. c ∷ xs) (take-drop n cs) in
    let (after, runs, h) =
      shrink_parts f c n cs small (omega arith)
        (subst (λ xs. IsChain f.entries xs) (sym whole) old) in
    rw runs (subst (λ xs. IsReallocated f.entries xs (suc n) (c ∷ take n cs) after.entries) whole h)
