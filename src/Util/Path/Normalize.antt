-- ===== src/Util/Path/Normalize.antt =====
-- normalize: what it answers, and where it does not come to an end.
use bas_cpp.Prelude.{
  ℕ, zero, suc, ◌+◌, ◌≤◌, ◌<◌, ◌≡◌, ◌↔◌, ◌⊎◌, ap, ◌∙◌, refl, Bool, ◌&&◌, Option, split_last,
  IsLastSplit, split_last-IsLastSplit, true, false, none, some, [], ◌∷◌, ◌++◌, arith, ◌==◌, is_nil,
  length, Bytes, codes, Bool-cases, inl, inr, has_byte,
}
use bas_cpp.Util.Path.{
  Token, token_from, count_byte, normalize_loop, drop_dots, parents, reversed, finish_path,
  normalized_at, normalize,
}

abbrev new_token : Token
new_token = record { slash = true; dots = 0; others = 0 }

abbrev no_token : Token
no_token = record { slash = false; dots = 0; others = 0 }

token_from-slash :
    (t : Token) (front s : Bytes) → token_from t (front ++ b'/' ∷ s) ≡ token_from new_token s
unfolding token_from
token_from-slash t [] s = refl
token_from-slash t (c ∷ front) s = elim (Bool-cases (c == b'/')) [
  | inl e ↦ rw e (token_from-slash new_token front s)
  | inr e ↦ rw e (token_from-slash (count_byte c t) front s)
]

-- The bytes of a token are counted, and its slash is kept.
token_from-counts :
    (t : Token) (s : Bytes)
    → has_byte b'/' s ≡ false
    → ((token_from t s).slash ≡ t.slash)
      × ((token_from t s).dots + (token_from t s).others ≡ t.dots + t.others + length s)
      × (t.others ≤ (token_from t s).others)
unfolding token_from count_byte
token_from-counts t [] h = (refl, omega arith, omega arith)
token_from-counts t (c ∷ s) h =
    let not_slash : (c == b'/') ≡ false = ground (arith, h) in
    let rest : has_byte b'/' s ≡ false = ground (arith, h) in
    elim (Bool-cases (c == b'.')) [
      | inl d ↦
          let (kept, sum, more) = token_from-counts (record t { dots = t.dots + 1 }) s rest in
          rw (not_slash, d) (kept, omega (arith, sum), more)
      | inr d ↦
          let (kept, sum, more) = token_from-counts (record t { others = t.others + 1 }) s rest in
          rw (not_slash, d) (kept, omega (arith, sum), omega (arith, more))
    ]

-- Whether a token is `/.` or `/..`.
abbrev is_dots : ℕ → Token → Bool
is_dots n t = (t.others == 0) && t.slash && (t.dots == n)

loop_skips :
    (fuel : ℕ) (parent : ℕ) (buf : Bytes)
    → normalize_loop fuel (record { slash = true; dots = 1; others = 0 }) parent buf ≡ none
unfolding normalize_loop
loop_skips zero parent buf = refl
loop_skips (suc fuel) parent buf = loop_skips fuel parent buf

loop_climbs :
    (fuel : ℕ) (parent : ℕ) (buf : Bytes)
    → normalize_loop fuel (record { slash = true; dots = 2; others = 0 }) parent buf ≡ none
unfolding normalize_loop
loop_climbs zero parent buf = refl
loop_climbs (suc fuel) parent buf = loop_climbs fuel (parent + 1) buf

loop_leaves :
    (fuel : ℕ) (t : Token)
    → is_dots 1 t ≡ false
    → is_dots 2 t ≡ false
    → normalize_loop (suc fuel) t 0 [] ≡ some (0, [])
unfolding normalize_loop
loop_leaves fuel t h k = rw (h, k) refl

-- A name behind a slash is `.` or `..`, or its token is neither.
name_cases :
    (s : Bytes)
    → has_byte b'/' s ≡ false
    → (s ≡ codes ".")
      ⊎ ((s ≡ codes "..")
          ⊎ ((is_dots 1 (token_from new_token s) ≡ false)
              × (is_dots 2 (token_from new_token s) ≡ false)))
unfolding token_from count_byte
name_cases [] h = inr (inr (refl, refl))
name_cases (c ∷ []) h =
    let e : (c == b'/') ≡ false = ground (arith, h) in
    elim (Bool-cases (c == b'.')) [
      | inl d ↦ let same : c ≡ b'.' = ground (arith, d) in inl (ap (λ x. x ∷ []) same)
      | inr d ↦ inr (inr (rw (e, d) (refl, refl)))
    ]
name_cases (c ∷ d ∷ []) h =
    let e : (c == b'/') ≡ false = ground (arith, h) in
    let f : (d == b'/') ≡ false = ground (arith, h) in
    elim (Bool-cases (c == b'.')) [
      | inr x ↦ elim (Bool-cases (d == b'.')) [
        | inl y ↦ inr (inr (rw (e, f, x, y) (refl, refl)))
        | inr y ↦ inr (inr (rw (e, f, x, y) (refl, refl)))
      ]
      | inl x ↦ elim (Bool-cases (d == b'.')) [
        | inl y ↦
            let same : c ≡ b'.' = ground (arith, x) in
            let same' : d ≡ b'.' = ground (arith, y) in inr (inl (rw (same, same') refl))
        | inr y ↦ inr (inr (rw (e, f, x, y) (refl, refl)))
      ]
    ]
name_cases (c ∷ d ∷ b ∷ s) h =
    let (_, sum, _) = token_from-counts new_token (c ∷ d ∷ b ∷ s) h in
    inr (
      inr (
        not_dots (c ∷ d ∷ b ∷ s) 1 sum (omega arith),
        not_dots (c ∷ d ∷ b ∷ s) 2 sum (omega arith),
      ))
  where
    not_dots :
        (s : Bytes) (n : ℕ)
        → (token_from new_token s).dots + (token_from new_token s).others ≡ 0 + 0 + length s
        → n < length s
        → is_dots n (token_from new_token s) ≡ false
    not_dots s n sum less = ground (arith, sum, less)

-- A path whose last name is `.` or `..`, with a slash in front of it.
pub EndsInDots : Bytes → Type 0
EndsInDots path = (front : Bytes) × ((path ≡ front ++ codes "/.") ⊎ (path ≡ front ++ codes "/.."))

is_nil-append_cons : (front s : Bytes) (c : ℕ) → is_nil (front ++ c ∷ s) ≡ false
is_nil-append_cons [] s c = refl
is_nil-append_cons (d ∷ front) s c = refl

normalize-dots : (path : Bytes) (fuel : ℕ) → EndsInDots path → normalize fuel path ≡ none
unfolding normalize normalized_at EndsInDots token_from count_byte
normalize-dots path fuel (front, inl e) =
    rw
      (
        e,
        is_nil-append_cons front (codes ".") b'/',
        token_from-slash no_token front (codes "."),
        loop_skips fuel 0 [],
      )
      refl
normalize-dots path fuel (front, inr e) =
    rw
      (
        e,
        is_nil-append_cons front (codes "..") b'/',
        token_from-slash no_token front (codes ".."),
        loop_climbs fuel 0 [],
      )
      refl

normalize-leaves :
    (c : ℕ) (s : Bytes) (fuel : ℕ)
    → is_dots 1 (token_from no_token (c ∷ s)) ≡ false
    → is_dots 2 (token_from no_token (c ∷ s)) ≡ false
    → normalize (suc fuel) (c ∷ s) ≡ some []
unfolding normalize normalized_at finish_path parents drop_dots reversed
normalize-leaves c s fuel h k =
    let more : (0 == length (c ∷ s)) ≡ false = ground arith in
    rw (loop_leaves fuel (token_from no_token (c ∷ s)) h k) (rw more refl)

normalize-cases :
    (c : ℕ) (s : Bytes) (fuel : ℕ) (r : Option (Bytes × Bytes))
    → IsLastSplit b'/' (c ∷ s) r
    → EndsInDots (c ∷ s) ⊎ (normalize (suc fuel) (c ∷ s) ≡ some [])
unfolding EndsInDots
normalize-cases c s fuel none h =
    let (flat, _, _) = token_from-counts no_token (c ∷ s) h in
    inr (normalize-leaves c s fuel (ground (arith, flat)) (ground (arith, flat)))
normalize-cases c s fuel (some (front, back)) (e, h) = elim (name_cases back h) [
  | inl same ↦ inl (front, inl (e ∙ ap (λ t. front ++ b'/' ∷ t) same))
  | inr (inl same) ↦ inl (front, inr (e ∙ ap (λ t. front ++ b'/' ∷ t) same))
  | inr (inr (one, two)) ↦
      let token = ap (λ t. token_from no_token t) e ∙ token_from-slash no_token front back in
      inr (
        normalize-leaves c s fuel (ap (λ t. is_dots 1 t) token ∙ one)
          (ap (λ t. is_dots 2 t) token ∙ two))
]

normalize_either :
    (path : Bytes) (fuel : ℕ) → EndsInDots path ⊎ (normalize (suc fuel) path ≡ some [])
normalize_either [] fuel = inr (unfold normalize in refl)
normalize_either (c ∷ s) fuel =
    normalize-cases c s fuel (split_last b'/' (c ∷ s)) (split_last-IsLastSplit b'/' (c ∷ s))

-- Whatever the number of rounds, one at least, normalize has not returned exactly where the path ends in
-- `/.` or in `/..`, so there it never returns; on every other path it returns in the first round, and
-- answers the empty path.
pub normalize_lem :
    (path : Bytes) (fuel : ℕ)
    → ((normalize (suc fuel) path ≡ none) ↔ EndsInDots path)
      × ((normalize (suc fuel) path ≡ none) ⊎ (normalize (suc fuel) path ≡ some []))
normalize_lem path fuel = elim (normalize_either path fuel) [
  | inl dots ↦ let runs = normalize-dots path (suc fuel) dots in ((λ _. dots, λ _. runs), inl runs)
  | inr empty ↦ ((λ runs. absurd cc, λ dots. normalize-dots path (suc fuel) dots), inr empty)
]
