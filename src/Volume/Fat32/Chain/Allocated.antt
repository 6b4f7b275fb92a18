-- ===== src/Volume/Fat32/Chain/Allocated.antt =====
-- What an allocation comes to, and the two ways in which a chain that is allocated grows.
use bas_cpp.Prelude.{
  ℕ, ◌≤◌, ◌<◌, ◌≡◌, ◌≢◌, inl, inr, refl, sym, subst, ◌∙◌, List, [], ◌∷◌, ◌++◌, arith, length,
  get_or, Any-append,
}
use bas_cpp.Volume.Fat32.ClusterManager.{Fat, fat_entries, entry_at, put_entry, normalize_value}
use bas_cpp.Volume.Fat32.ClusterManager.Entries.{
  fat_entries-put_entry, entry_at-put_entry_self, entry_at-put_entry_ne,
}
use bas_cpp.Volume.Fat32.Chain.{Outcome, end_of_chain}
use bas_cpp.Volume.Fat32.Chain.Linked.{Mem, Distinct, Linked, IsChain}

-- The clusters were free, are now a chain in the order given, and no other entry differs.
pub record IsAllocated (before cs after : List ℕ) : Type 0 where
  pub same_length : length after ≡ length before
  pub chain : IsChain after cs
  pub were_free : (k : ℕ) → Mem k cs → get_or before k 0 ≡ 0
  pub others : (k : ℕ) → ¬ Mem k cs → get_or after k 0 ≡ get_or before k 0

-- The table is as it was, and fewer than `count` clusters of it are free: they are all in a shorter list.
pub record IsFull (before : List ℕ) (count : ℕ) (after : List ℕ) : Type 0 where
  pub unchanged : after ≡ before
  pub covered :
      (cs : List ℕ) × (length cs < count)
      × ((k : ℕ) → 2 ≤ k → k < length before → get_or before k 0 ≡ 0 → Mem k cs)

-- What an allocation of `count` clusters from a table comes to: a chain, or an exception that leaves the
-- table as it was, where too few clusters are free.
abbrev pub IsAllocation : List ℕ → ℕ → Outcome (List ℕ) → Type 0
IsAllocation before count (Outcome.ok cs after) =
    (length cs ≡ count) × IsAllocated before cs after.entries
IsAllocation before count (Outcome.throws after) = IsFull before count after.entries
IsAllocation before count (Outcome.out_of_fuel after) = ⊥

pub normalize_cluster : (v : ℕ) → v ≤ end_of_chain → normalize_value v ≡ v
normalize_cluster v h = omega arith

pub entry_at-put_cluster :
    (f : Fat) (c v : ℕ) → c < fat_entries f → v ≤ end_of_chain → entry_at (put_entry f c v) c ≡ v
entry_at-put_cluster f c v valid h = entry_at-put_entry_self f c v valid ∙ normalize_cluster v h

pub IsAllocated-one :
    (f : Fat) (c : ℕ)
    → 2 ≤ c
    → c < fat_entries f
    → entry_at f c ≡ 0
    → IsAllocated f.entries (c ∷ []) (put_entry f c end_of_chain).entries
IsAllocated-one f c low valid free =
    let len = fat_entries-put_entry f c end_of_chain in
    record {
      same_length = len;
      chain = record {
        linked = entry_at-put_cluster f c end_of_chain valid (omega arith);
        distinct = (λ m. m, tt);
        in_range = ((low, rw len valid), tt);
      };
      were_free = λ k m. elim m [ inl e ↦ subst (λ k. entry_at f k ≡ 0) e free | inr m ↦ absurd m ];
      others = λ k m. entry_at-put_entry_ne f c end_of_chain k (λ e. m (inl e));
    }

-- A cluster in front: it was given its link before the rest was allocated.
pub IsAllocated-cons :
    (f : Fat) (c d : ℕ) (cs after : List ℕ)
    → 2 ≤ c
    → c < fat_entries f
    → d ≤ end_of_chain
    → entry_at f c ≡ 0
    → ¬ Mem c (d ∷ cs)
    → IsAllocated (put_entry f c d).entries (d ∷ cs) after
    → IsAllocated f.entries (c ∷ d ∷ cs) after
IsAllocated-cons f c d cs after low valid small free fresh h =
    let len = fat_entries-put_entry f c d in
    let chain = h.chain in
    let same_len = h.same_length ∙ len in
    let elsewhere = λ (k : ℕ) (ne : c ≢ k). entry_at-put_entry_ne f c d k ne in
    record {
      same_length = same_len;
      chain = record {
        linked = (h.others c fresh ∙ entry_at-put_cluster f c d valid small, chain.linked);
        distinct = (fresh, chain.distinct);
        in_range = ((low, rw same_len valid), chain.in_range);
      };
      were_free = λ k m. elim m [
        | inl e ↦ subst (λ k. entry_at f k ≡ 0) e free
        | inr m ↦
            sym (elsewhere k (λ e. fresh (subst (λ x. Mem x (d ∷ cs)) (sym e) m))) ∙ h.were_free k m
      ];
      others = λ k m. h.others k (λ n. m (inr n)) ∙ elsewhere k (λ e. m (inl e));
    }

pub Linked-snoc :
    (entries after init : List ℕ) (p c : ℕ)
    → ((k : ℕ) → Mem k (init ++ p ∷ []) → k ≢ p → get_or after k 0 ≡ get_or entries k 0)
    → get_or after p 0 ≡ c
    → get_or after c 0 ≡ end_of_chain
    → Distinct (init ++ p ∷ [])
    → Linked entries (init ++ p ∷ [])
    → Linked after ((init ++ p ∷ []) ++ c ∷ [])
Linked-snoc entries after [] p c same at last d h = (at, last)
Linked-snoc entries after (x ∷ []) p c same at last d h =
    (same x (inl refl) (λ e. d.0 (inl (sym e))) ∙ h.0, (at, last))
Linked-snoc entries after (x ∷ y ∷ init) p c same at last d h = (
  same x (inl refl) (λ e. d.0 (inr ((Any-append (λ k. k ≡ x) init (p ∷ [])).1 (inr (inl (sym e))))))
      ∙ h.0,
  Linked-snoc entries after (y ∷ init) p c (λ k m. same k (inr m)) at last d.1 h.1,
)

pub Distinct-snoc : (cs : List ℕ) (c : ℕ) → Distinct cs → ¬ Mem c cs → Distinct (cs ++ c ∷ [])
Distinct-snoc [] c d fresh = (λ m. m, tt)
Distinct-snoc (x ∷ cs) c d fresh = (
  λ m. elim ((Any-append (λ k. k ≡ x) cs (c ∷ [])).0 m) [
    | inl old ↦ d.0 old
    | inr (inl e) ↦ fresh (inl (sym e))
    | inr (inr e) ↦ e
  ],
  Distinct-snoc cs c d.1 (λ m. fresh (inr m)),
)
