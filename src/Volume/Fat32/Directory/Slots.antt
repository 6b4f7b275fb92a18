-- ===== src/Volume/Fat32/Directory/Slots.antt =====
-- The search over the clusters of a directory, on what the device holds.
use bas_cpp.Prelude.{
  ℕ, zero, suc, ◌+◌, ◌-◌, ◌*◌, ◌/◌, ◌≡◌, refl, sym, ap, ◌∙◌, Bool, true, false, Option, none, some,
  List, [], ◌∷◌, ◌++◌, arith, if◌then◌else◌, ltb, Bool-cases, Option-cases, inl, inr, length,
  length-append, drop, Bytes,
}
use bas_cpp.Volume.Device.{read_device}
use bas_cpp.Volume.Fat32.Vol.{Vol, Result, did, raised, cluster_to_offset, read_at, found_or_raise}
use bas_cpp.Volume.Fat32.Directory.{
  slots_of, Scan, scan_start, scan_slot, scan_slots, scan_clusters, first_bytes, place,
}
use bas_cpp.Volume.Fat32.Directory.Placement.{IsPlace, place-IsPlace}

abbrev or_nothing : Option Bytes → Bytes
or_nothing none = []
or_nothing (some block) = block

-- The first bytes of the slots of a cluster on the device, and of the clusters of a directory.
abbrev cluster_block : Vol → ℕ → Option Bytes
cluster_block v cluster =
    read_device v.disk.device (v.data_offset + (cluster - 2) * v.cluster_size) v.cluster_size

abbrev pub cluster_bytes : Vol → ℕ → Bytes
cluster_bytes v cluster = first_bytes (v.cluster_size / 32) (or_nothing (cluster_block v cluster))

abbrev pub directory_bytes : Vol → List ℕ → Bytes
directory_bytes v [] = []
directory_bytes v (cluster ∷ chain) = cluster_bytes v cluster ++ directory_bytes v chain

length-first_bytes : (n : ℕ) (block : Bytes) → length (first_bytes n block) ≡ n
unfolding first_bytes slots_of
length-first_bytes zero block = refl
length-first_bytes (suc n) block = ap suc (length-first_bytes n (drop 32 block))

pub length-directory_bytes :
    (v : Vol) (chain : List ℕ)
    → length (directory_bytes v chain) ≡ length chain * (v.cluster_size / 32)
length-directory_bytes v [] = omega arith
length-directory_bytes v (cluster ∷ chain) =
    let ih = length-directory_bytes v chain in
    let l = length-append (cluster_bytes v cluster) (directory_bytes v chain) in
    let n = length-first_bytes (v.cluster_size / 32) (or_nothing (cluster_block v cluster)) in
    grind (arith, ih, l, n)

-- One round, and the rest of a search in two parts.
in_parts :
    (next part all : Scan) (go : Scan → Scan) (b : Bool)
    → next.broke ≡ b
    → (b ≡ false → all ≡ (if part.broke then part else go part))
    → (if b then next else all) ≡ (
        if (if b then next else part).broke
        then if b then next else part
        else go (if b then next else part))
in_parts next part all go true e h = sym (ap (λ b. if b then next else go next) e)
in_parts next part all go false e h = h refl

-- A search over slots goes on where it has not stopped.
scan_slots-append :
    (required : ℕ) (s : Scan) (xs ys : Bytes)
    → s.broke ≡ false
    → scan_slots required s (xs ++ ys) ≡ (
        if (scan_slots required s xs).broke
        then scan_slots required s xs
        else scan_slots required (scan_slots required s xs) ys)
unfolding scan_slots
scan_slots-append required s [] ys h = sym (ap (λ b. if b then s else scan_slots required s ys) h)
scan_slots-append required s (x ∷ xs) ys h =
    let next = scan_slot required s.empty_start s x in
    in_parts next (scan_slots required next xs) (scan_slots required next (xs ++ ys))
      (λ t. scan_slots required t ys) next.broke refl
      (λ going. scan_slots-append required next xs ys going)

module _ (required : ℕ) (v : Vol) where
  -- What becomes of the search at a cluster with the block that is given.
  abbrev at_block : Scan → List ℕ → Option Bytes → Result Scan
  at_block s chain none = raised v
  at_block s chain (some block) =
      scan_clusters required (scan_slots required s (first_bytes (v.cluster_size / 32) block)) chain
        v

  stopped :
      (s : Scan) (chain : List ℕ) → s.broke ≡ true → scan_clusters required s chain v ≡ did s v
  unfolding scan_clusters
  stopped s [] h = refl
  stopped s (cluster ∷ chain) h = rw h refl

  scan_clusters-step :
      (s : Scan) (cluster : ℕ) (chain : List ℕ) (o : Option Bytes) (b : Bool)
      → s.broke ≡ false
      → ltb cluster 2 ≡ b
      → cluster_block v cluster ≡ o
      → scan_clusters required s (cluster ∷ chain) v ≡ (if b then raised v else at_block s chain o)
  unfolding scan_clusters cluster_to_offset read_at found_or_raise
  scan_clusters-step s cluster chain o true h e f = rw (h, e) refl
  scan_clusters-step s cluster chain none false h e f = rw (h, e, f) refl
  scan_clusters-step s cluster chain (some block) false h e f = rw (h, e, f) refl

  -- The clusters behind one whose slots have been searched.
  went_on :
      (s s' : Scan) (xs ys : Bytes) (chain : List ℕ) (v' : Vol) (b : Bool)
      → s.broke ≡ false
      → scan_clusters required (scan_slots required s xs) chain v ≡ did s' v'
      → ((scan_slots required s xs).broke ≡ false
          → s' ≡ scan_slots required (scan_slots required s xs) ys)
      → (scan_slots required s xs).broke ≡ b
      → s' ≡ scan_slots required s (xs ++ ys)
  went_on s s' xs ys chain v' true h e rest b =
      let halt = stopped (scan_slots required s xs) chain b in
      let all = scan_slots-append required s xs ys h in
      let next = scan_slots required s xs in
      let here : s' ≡ next = cc in
      let over = all ∙ ap (λ c. if c then next else scan_slots required next ys) b in
      here ∙ sym over
  went_on s s' xs ys chain v' false h e rest b =
      let all = scan_slots-append required s xs ys h in
      let next = scan_slots required s xs in
      let onward = all ∙ ap (λ c. if c then next else scan_slots required next ys) b in
      rest b ∙ sym onward

  -- The search over clusters, where it does not throw, is the search over all their slots.
  pub scan_clusters-slots :
      (s s' : Scan) (chain : List ℕ) (v' : Vol)
      → s.broke ≡ false
      → scan_clusters required s chain v ≡ did s' v'
      → s' ≡ scan_slots required s (directory_bytes v chain)
  unfolding scan_clusters
  scan_clusters-slots s s' [] v' h e = unfold scan_slots in cc
  scan_clusters-slots s s' (cluster ∷ chain) v' h e = elim (Bool-cases (ltb cluster 2)) [
    | inl low ↦
        absurd cc
          (sym (scan_clusters-step s cluster chain (cluster_block v cluster) true h low refl) ∙ e)
    | inr high ↦ elim (Option-cases (cluster_block v cluster)) [
      | inl unread ↦
          absurd cc (sym (scan_clusters-step s cluster chain none false h high unread) ∙ e)
      | inr (block, read) ↦
          let next = scan_slots required s (first_bytes (v.cluster_size / 32) block) in
          let on = sym (scan_clusters-step s cluster chain (some block) false h high read) ∙ e in
          let same : cluster_bytes v cluster ≡ first_bytes (v.cluster_size / 32) block =
            ap (λ o. first_bytes (v.cluster_size / 32) (or_nothing o)) read in
          rw same (
            went_on s s' (first_bytes (v.cluster_size / 32) block) (directory_bytes v chain) chain
              v' next.broke h on (λ b. scan_clusters-slots next s' chain v' b on) refl)
    ]
  ]

-- Where the search of writeDirectoryEntryToDisk over the clusters of a directory does not throw, the
-- slots that are chosen for a new entry are free among the slots of all those clusters, as the device
-- holds them. In the directory as it is, they are as many as are needed, all inside, each never used or
-- deleted, and every slot in front of them is in use or deleted, so that a listing comes to them. In an
-- extension, all slots from the chosen one to the end are unused, and a listing comes to them unless
-- something stood behind the end marker.
pub scan_clusters-IsPlace :
    (required : ℕ) (chain : List ℕ) (v v' : Vol) (s : Scan)
    → scan_clusters required scan_start chain v ≡ did s v'
    → IsPlace required
        (directory_bytes v chain)
        s.broke
        (place required s (length chain * (v.cluster_size / 32)))
scan_clusters-IsPlace required chain v v' s e =
    let all = scan_clusters-slots required v scan_start s chain v' refl e in
    let size = length-directory_bytes v chain in
    rw (all, sym size) (place-IsPlace required (directory_bytes v chain))
