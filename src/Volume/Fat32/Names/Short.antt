-- ===== src/Volume/Fat32/Names/Short.antt =====
-- Short names, written into the first eleven bytes of an entry and read from them.
use bas_cpp.Prelude.{
  ℕ, zero, suc, ◌≤◌, ◌≡◌, refl, sym, ap, ◌∙◌, Bool, true, false, ◌&&◌, Option, none, some, [], ◌∷◌,
  ◌++◌, append_assoc, map, arith, if◌then◌else◌, ◌==◌, ltb, is_nil, length, take, drop, Bytes,
  to_upper, to_lower, to_lower-to_upper, split_last, IsLastSplit, split_last-IsLastSplit,
}
use bas_cpp.Volume.Fat32.Names.Slots.{take-all}
use bas_cpp.Volume.Fat32.Names.{
  trim_spaces, padded, extension_at, base_and_extension, join_extension, shortened,
  create_short_name, short_name_field, decode_short_name,
}

is_nil-map : (f : ℕ → ℕ) (s : Bytes) → is_nil (map f s) ≡ is_nil s
is_nil-map f [] = refl
is_nil-map f (c ∷ s) = refl

length-map : (f : ℕ → ℕ) (s : Bytes) → length (map f s) ≡ length s
length-map f [] = refl
length-map f (c ∷ s) = ap suc (length-map f s)

trim_spaces-padded : (n : ℕ) (s : Bytes) → length s ≤ n → trim_spaces (padded n s) ≡ trim_spaces s
unfolding trim_spaces padded
trim_spaces-padded zero [] h = refl
trim_spaces-padded zero (c ∷ s) h = absurd (omega (arith, h))
trim_spaces-padded (suc n) [] h = rw (trim_spaces-padded n [] (omega arith)) refl
trim_spaces-padded (suc n) (c ∷ s) h = rw (trim_spaces-padded n s (omega (arith, h))) refl

upper_space : (c : ℕ) → (to_upper c == b' ') ≡ (c == b' ')
unfolding to_upper
upper_space c = ground arith

trim_spaces-upper : (s : Bytes) → trim_spaces (map to_upper s) ≡ map to_upper (trim_spaces s)
unfolding trim_spaces
trim_spaces-upper [] = refl
trim_spaces-upper (c ∷ s) =
    rw (upper_space c, trim_spaces-upper s, is_nil-map to_upper (trim_spaces s))
      (either ((c == b' ') && is_nil (trim_spaces s)))
  where
    either :
        (b : Bool)
        → (if b then [] else to_upper c ∷ map to_upper (trim_spaces s))
          ≡ map to_upper (if b then [] else c ∷ trim_spaces s)
    either true = refl
    either false = refl

lower-upper : (s : Bytes) → map to_lower (map to_upper s) ≡ map to_lower s
lower-upper [] = refl
lower-upper (c ∷ s) = rw (to_lower-to_upper c, lower-upper s) refl

take-padded : (n : ℕ) (s rest : Bytes) → take n (padded n s ++ rest) ≡ padded n s
unfolding padded
take-padded zero s rest = refl
take-padded (suc n) [] rest = ap (λ t. b' ' ∷ t) (take-padded n [] rest)
take-padded (suc n) (c ∷ s) rest = ap (λ t. c ∷ t) (take-padded n s rest)

drop-padded : (n : ℕ) (s rest : Bytes) → drop n (padded n s ++ rest) ≡ rest
unfolding padded
drop-padded zero s rest = refl
drop-padded (suc n) [] rest = drop-padded n [] rest
drop-padded (suc n) (c ∷ s) rest = drop-padded n s rest

-- A part of a name, padded in upper case, is read back in lower case.
part-read :
    (n : ℕ) (s : Bytes)
    → length s ≤ n
    → trim_spaces s ≡ s
    → map to_lower (trim_spaces (padded n (map to_upper s))) ≡ map to_lower s
part-read n s h trimmed =
    let l = length-map to_upper s in
    ap (map to_lower)
      (trim_spaces-padded n (map to_upper s) (omega (arith, l, h)) ∙ trim_spaces-upper s)
    ∙ lower-upper (trim_spaces s)
    ∙ ap (map to_lower) trimmed

map-append : (f : ℕ → ℕ) (s t : Bytes) → map f (s ++ t) ≡ map f s ++ map f t
map-append f [] t = refl
map-append f (c ∷ s) t = ap (λ u. f c ∷ u) (map-append f s t)

lower-join :
    (base ext : Bytes)
    → join_extension (map to_lower base) (map to_lower ext) ≡ map to_lower (join_extension base ext)
unfolding join_extension to_lower
lower-join base [] = refl
lower-join base (c ∷ ext) = sym (map-append to_lower base (b'.' ∷ c ∷ ext))

-- The parts of a name make up the name.
pub join-base_and_extension :
    (name : Bytes) → join_extension (base_and_extension name).0 (base_and_extension name).1 ≡ name
unfolding base_and_extension
join-base_and_extension name = parts (split_last b'.' name) (split_last-IsLastSplit b'.' name)
  where
    parts :
        (r : Option (Bytes × Bytes))
        → IsLastSplit b'.' name r
        → join_extension (extension_at name r).0 (extension_at name r).1 ≡ name
    parts none h = unfold join_extension in unfold extension_at in refl
    parts (some (base, [])) h = unfold join_extension in unfold extension_at in refl
    parts (some (base, c ∷ ext)) h = unfold join_extension in unfold extension_at in sym h.0

-- A name in the 8.3 form: a base of at most eight bytes and an extension of at most three, neither with a
-- space at its end.
pub record IsShortName (name : Bytes) : Type 0 where
  pub base_short : length (base_and_extension name).0 ≤ 8
  pub ext_short : length (base_and_extension name).1 ≤ 3
  pub base_trimmed : trim_spaces (base_and_extension name).0 ≡ (base_and_extension name).0
  pub ext_trimmed : trim_spaces (base_and_extension name).1 ≡ (base_and_extension name).1

-- A name in the 8.3 form is kept by createShortName, in lower case, and so it is by an entry: the first
-- eleven bytes that writeDirEntry makes of it are read by decodeShortName as the name in lower case,
-- whatever bytes follow.
pub decode_short_name-field :
    (name rest : Bytes)
    → IsShortName name
    → (create_short_name name ≡ map to_lower name)
      × (decode_short_name (short_name_field name ++ rest) ≡ map to_lower name)
unfolding create_short_name decode_short_name short_name_field
decode_short_name-field name rest h =
    let base = (base_and_extension name).0 in
    let ext = (base_and_extension name).1 in
    let joined = lower-join base ext ∙ ap (map to_lower) (join-base_and_extension name) in
    let upper_base = padded 8 (map to_upper base) in
    let upper_ext = padded 3 (map to_upper ext) in
    (
      rw (kept base h.base_short, take-short ext h.ext_short) joined,
      rw
          (
            append_assoc upper_base upper_ext rest,
            take-padded 8 (map to_upper base) (upper_ext ++ rest),
            drop-padded 8 (map to_upper base) (upper_ext ++ rest),
            take-padded 3 (map to_upper ext) rest,
            part-read 8 base h.base_short h.base_trimmed,
            part-read 3 ext h.ext_short h.ext_trimmed,
          )
          joined,
    )
  where
    kept : (base : Bytes) → length base ≤ 8 → shortened base ≡ base
    kept base s =
        let e : ltb 8 (length base) ≡ false = ground (arith, s) in unfold shortened in rw e refl

    take-short : (ext : Bytes) → length ext ≤ 3 → take 3 ext ≡ ext
    take-short ext s = take-all 3 ext s
