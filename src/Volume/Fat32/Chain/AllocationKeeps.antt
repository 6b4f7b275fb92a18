-- ===== src/Volume/Fat32/Chain/AllocationKeeps.antt =====
-- Allocation keeps the tables in memory and on the device coherent.
use bas_cpp.Prelude.{
  ℕ, zero, suc, ◌+◌, Option, none, some, List, [], ◌∷◌, ◌++◌, if◌then◌else◌, ◌==◌,
}
use bas_cpp.Volume.Fat32.Flush.{Disk}
use bas_cpp.Volume.Fat32.Chain.{
  Op, ◌>>=◌, ◌>>◌, done, fail, set_entry, find_free, find_run, set_hint, link_to,
  free_cluster_chain, end_of_chain, link_run, roll_back, allocate_each, allocate_from,
  allocate_cluster_chain,
}
use bas_cpp.Volume.Fat32.Chain.Keeps.{
  Keeps, Keeps-bind, Keeps-if, set_entry-Keeps, find_free-Keeps, find_run-Keeps, set_hint-Keeps,
  link_to-Keeps, free_cluster_chain-Keeps,
}

module _ (d : Disk) where
  pub done-Keeps : {A : Type 0} (a : A) → Keeps d (done a)
  done-Keeps a f h = h

  -- A step without a result, then the rest.
  pub Keeps-seq :
      {B : Type 0} (m : Op (Unit {0})) (next : Op B)
      → Keeps d m
      → Keeps d next
      → Keeps d (m >> next)
  Keeps-seq m next hm hn = Keeps-bind d m (λ _. next) hm (λ _. hn)

  link_run-Keeps : (n c : ℕ) → Keeps d (link_run n c)
  unfolding link_run
  link_run-Keeps zero c = λ f h. h
  link_run-Keeps (suc n) c =
      let v = if n == 0 then end_of_chain else c + 1 in
      Keeps-seq (set_entry c v) (do out ← link_run n (c + 1); done (c ∷ out))
        (set_entry-Keeps d c v)
        (Keeps-bind d (link_run n (c + 1)) (λ out. done (c ∷ out)) (link_run-Keeps n (c + 1))
          (λ out. done-Keeps (c ∷ out)))

  roll_back-Keeps : (out : List ℕ) → Keeps d (roll_back out)
  unfolding roll_back
  roll_back-Keeps [] = λ f h. h
  roll_back-Keeps (c ∷ out) =
      Keeps-seq (free_cluster_chain c) fail (free_cluster_chain-Keeps d c) (λ f h. h)

  allocate_each-Keeps : (n prev : ℕ) (out : List ℕ) → Keeps d (allocate_each n prev out)
  unfolding allocate_each
  allocate_each-Keeps zero prev out = λ f h. h
  allocate_each-Keeps (suc n) prev out =
      let later = allocate_each-Keeps n in
      let mark = λ (c : ℕ). set_entry c end_of_chain in
      let rest = λ (c : ℕ). allocate_each n c (out ++ c ∷ []) in
      Keeps-bind d find_free
        (λ c. if c == 0 then roll_back out else (mark c >> (link_to prev c >> rest c)))
        (find_free-Keeps d)
        (λ c.
          Keeps-if d (c == 0) (roll_back out) (mark c >> (link_to prev c >> rest c))
            (roll_back-Keeps out)
            (Keeps-seq (mark c) (link_to prev c >> rest c) (set_entry-Keeps d c end_of_chain) (
              Keeps-seq (link_to prev c) (rest c) (link_to-Keeps d prev c)
                (later c (out ++ c ∷ [])))))

  allocate_from-Keeps : (count : ℕ) (hit : Option ℕ) → Keeps d (allocate_from count hit)
  unfolding allocate_from
  allocate_from-Keeps count none = allocate_each-Keeps count 0 []
  allocate_from-Keeps count (some start) =
      Keeps-bind d (link_run count start) (λ out. set_hint (start + count) >> done out)
        (link_run-Keeps count start)
        (λ out.
          Keeps-seq (set_hint (start + count)) (done out) (set_hint-Keeps d (start + count))
            (done-Keeps out))

  pub allocate_cluster_chain-Keeps : (count : ℕ) → Keeps d (allocate_cluster_chain count)
  unfolding allocate_cluster_chain
  allocate_cluster_chain-Keeps count =
      Keeps-if d (count == 0) (done []) (find_run count >>= allocate_from count) (λ f h. h)
        (Keeps-bind d (find_run count) (allocate_from count) (find_run-Keeps d count)
          (allocate_from-Keeps count))
