-- ===== src/Volume/Fat32/Chain/Growth.antt =====
-- One cluster more at the end of a chain that is being allocated.
use bas_cpp.Prelude.{
  ℕ, ◌≤◌, ◌<◌, ◌≡◌, ◌≢◌, inl, inr, refl, sym, subst, ◌∙◌, List, [], ◌∷◌, ◌++◌, arith, get_or, All,
  All-append, Any-append,
}
use bas_cpp.Volume.Fat32.ClusterManager.{Fat, fat_entries, entry_at, put_entry}
use bas_cpp.Volume.Fat32.ClusterManager.Entries.{fat_entries-put_entry, entry_at-put_entry_ne}
use bas_cpp.Volume.Fat32.Chain.{end_of_chain}
use bas_cpp.Volume.Fat32.Chain.Linked.{Mem, IsChain, IsChain-used_all}
use bas_cpp.Volume.Fat32.Chain.Allocated.{
  IsAllocated, Linked-snoc, Distinct-snoc, entry_at-put_cluster,
}

pub All-last : (P : ℕ → Type 0) (init : List ℕ) (p : ℕ) → All P (init ++ p ∷ []) → P p
All-last P [] p h = h.0
All-last P (x ∷ init) p h = All-last P init p h.1

Mem-last : (init : List ℕ) (p : ℕ) → Mem p (init ++ p ∷ [])
Mem-last init p = (Any-append (λ x. x ≡ p) init (p ∷ [])).1 (inr (inl refl))

-- The table after a free cluster is marked as the end of the chain and linked to its last cluster.
abbrev pub grow : Fat → ℕ → ℕ → Fat
grow f p c = put_entry (put_entry f c end_of_chain) p c

-- What the next lemmas assume of the chain so far and of the cluster that comes to it.
pub record CanGrow (before init : List ℕ) (p c : ℕ) (f : Fat) : Type 0 where
  pub small : fat_entries f ≤ end_of_chain
  pub so_far : IsAllocated before (init ++ p ∷ []) f.entries
  pub low : 2 ≤ c
  pub valid : c < fat_entries f
  pub free : entry_at f c ≡ 0

pub fat_entries-grow : (f : Fat) (p c : ℕ) → fat_entries (grow f p c) ≡ fat_entries f
fat_entries-grow f p c =
    fat_entries-put_entry (put_entry f c end_of_chain) p c ∙ fat_entries-put_entry f c end_of_chain

CanGrow-apart :
    (before init : List ℕ) (p c : ℕ) (f : Fat)
    → CanGrow before init p c f
    → ¬ Mem c (init ++ p ∷ [])
CanGrow-apart before init p c f h m =
    let so_far = h.so_far in IsChain-used_all f.entries (init ++ p ∷ []) c so_far.chain m h.free

pub CanGrow-last :
    (before init : List ℕ) (p c : ℕ) (f : Fat)
    → CanGrow before init p c f
    → (2 ≤ p) × (p < fat_entries f)
CanGrow-last before init p c f h =
    let so_far = h.so_far in
    let chain = so_far.chain in All-last (λ c. (2 ≤ c) × (c < fat_entries f)) init p chain.in_range

pub entry_at-grow_ne :
    (f : Fat) (p c k : ℕ) → c ≢ k → p ≢ k → entry_at (grow f p c) k ≡ entry_at f k
entry_at-grow_ne f p c k hc hp =
    entry_at-put_entry_ne (put_entry f c end_of_chain) p c k hp
    ∙ entry_at-put_entry_ne f c end_of_chain k hc

IsChain-grow :
    (before init : List ℕ) (p c : ℕ) (f : Fat)
    → CanGrow before init p c f
    → IsChain (grow f p c).entries ((init ++ p ∷ []) ++ c ∷ [])
IsChain-grow before init p c f h =
    let out = init ++ p ∷ [] in
    let so_far = h.so_far in
    let chain = so_far.chain in
    let apart = CanGrow-apart before init p c f h in
    let last = CanGrow-last before init p c f h in
    let ne : p ≢ c = λ e. apart (subst (λ x. Mem x out) e (Mem-last init p)) in
    let marked = put_entry f c end_of_chain in
    let small = h.small in
    let valid = h.valid in
    let len = fat_entries-put_entry f c end_of_chain in
    record {
      linked =
          Linked-snoc f.entries (grow f p c).entries init p c
            (λ k m other.
              entry_at-grow_ne f p c k (λ e. apart (subst (λ x. Mem x out) (sym e) m))
                (λ e. other (sym e)))
            (entry_at-put_cluster marked p c (rw len last.1) (omega arith))
            (entry_at-put_entry_ne marked p c c ne
              ∙ entry_at-put_cluster f c end_of_chain valid (omega arith))
            chain.distinct chain.linked;
      distinct = Distinct-snoc out c chain.distinct apart;
      in_range = rw (fat_entries-grow f p c) (
          All-append (λ c. (2 ≤ c) × (c < fat_entries f)) out (c ∷ []) chain.in_range
            ((h.low, valid), tt));
    }

pub IsAllocated-grow :
    (before init : List ℕ) (p c : ℕ) (f : Fat)
    → CanGrow before init p c f
    → IsAllocated before ((init ++ p ∷ []) ++ c ∷ []) (grow f p c).entries
IsAllocated-grow before init p c f h =
    let out = init ++ p ∷ [] in
    let so_far = h.so_far in
    let apart = CanGrow-apart before init p c f h in
    let join = λ (k : ℕ). Any-append (λ x. x ≡ k) out (c ∷ []) in
    record {
      same_length = fat_entries-grow f p c ∙ so_far.same_length;
      chain = IsChain-grow before init p c f h;
      were_free = λ k m. elim ((join k).0 m) [
        | inl old ↦ so_far.were_free k old
        | inr (inl e) ↦ subst (λ k. get_or before k 0 ≡ 0) e (sym (so_far.others c apart) ∙ h.free)
        | inr (inr e) ↦ absurd e
      ];
      others = λ k m.
          entry_at-grow_ne f p c k (λ e. m ((join k).1 (inr (inl e))))
            (λ e. m ((join k).1 (inl (subst (λ x. Mem x out) e (Mem-last init p)))))
          ∙ so_far.others k (λ n. m ((join k).1 (inl n)));
    }
