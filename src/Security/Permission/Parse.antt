-- ===== src/Security/Permission/Parse.antt =====
-- The parser of src/bas/security/Permission.cpp ends: each round of its loop reads a byte.
use bas_cpp.Prelude.{
  ℕ, zero, suc, ◌≤◌, ◌<◌, ◌≡◌, refl, true, some, [], ◌∷◌, inl, inr, arith, Bytes, length,
  length-rest_from, rest_from, any_byte, scan_until, Bool-cases,
}
use bas_cpp.Security.Permission.{
  Permission, all_permission, read_quoted, value_at, parse_value, is_visible, is_semicolon,
  is_key_end, is_key_start, after_key, segment, segments, parse_trimmed, parse, trim, is_equals,
}

length-read_quoted : (quote : ℕ) (text : Bytes) → length (read_quoted quote text).1 ≤ length text
unfolding read_quoted
length-read_quoted quote [] = omega arith
length-read_quoted quote (c ∷ []) = ground arith
length-read_quoted quote (c ∷ d ∷ text) =
    ground (arith, length-read_quoted quote text, length-read_quoted quote (d ∷ text))

length-value_at : (text : Bytes) → length (value_at text).1 ≤ length text
unfolding value_at
length-value_at [] = omega arith
length-value_at (c ∷ text) =
    ground (arith, length-read_quoted c text, length-rest_from is_semicolon (c ∷ text))

length-parse_value : (text : Bytes) → length (parse_value text).1 ≤ length text
unfolding parse_value
length-parse_value text =
    omega (arith, length-value_at (rest_from is_visible text), length-rest_from is_visible text)

length-after_key :
    (key text : Bytes) (p : Permission) → length (after_key key text p).0 ≤ length text
unfolding after_key
length-after_key key [] p = omega arith
length-after_key key (c ∷ text) p =
    ground (arith, length-parse_value text, length-rest_from is_semicolon (c ∷ text))

-- At an equals sign the key's round drops that byte.
length-after_key_equals :
    (key text : Bytes) (p : Permission) → length (after_key key (b'=' ∷ text) p).0 ≤ length text
unfolding after_key
length-after_key_equals key text p = length-parse_value text

from_key_end :
    (c : ℕ) (key text : Bytes) (p : Permission)
    → is_key_start c ≡ true
    → is_key_end c ≡ true
    → length (after_key key (c ∷ text) p).0 < suc (length text)
unfolding after_key is_key_start is_key_end
from_key_end c key text p start stop = ground (arith, length-parse_value text)

segment_at_key :
    (c : ℕ) (text : Bytes) (p : Permission)
    → is_key_start c ≡ true
    → length (segment (c ∷ text) p).0 < suc (length text)
unfolding segment
segment_at_key c text p start = elim (Bool-cases (is_key_end c)) [
  | inl stop ↦ rw (start, stop) (from_key_end c _ text p start stop)
  | inr more ↦
      rw (start, more)
        (omega (
          arith,
          length-after_key (c ∷ scan_until is_key_end text) (rest_from is_key_end text) p,
          length-rest_from is_key_end text,
        ))
]

segment_progress :
    (c : ℕ) (text : Bytes) (p : Permission) → length (segment (c ∷ text) p).0 < suc (length text)
segment_progress c text p = elim (Bool-cases (is_key_start c)) [
  | inl start ↦ segment_at_key c text p start
  | inr skip ↦
      unfold segment in
      rw skip (
        omega (
          arith,
          length-after_key (scan_until is_key_end (rest_from is_key_start text))
              (rest_from is_key_end (rest_from is_key_start text)) p,
          length-rest_from is_key_end (rest_from is_key_start text),
          length-rest_from is_key_start text,
        ))
]

segments_total :
    (fuel : ℕ) (text : Bytes) (p : Permission)
    → length text < fuel
    → (r : Permission) × (segments fuel text p ≡ some r)
unfolding segments
segments_total zero text p h = elim h [ ]
segments_total (suc fuel) [] p h = (p, refl)
segments_total (suc fuel) (c ∷ text) p h =
    segments_total fuel (segment (c ∷ text) p).0 (segment (c ∷ text) p).1
      (omega (arith, segment_progress c text p))

parse_trimmed_total : (text : Bytes) → (r : Permission) × (parse_trimmed text ≡ some r)
unfolding parse_trimmed
parse_trimmed_total [] = (all_permission, refl)
parse_trimmed_total (c ∷ text) = elim (Bool-cases (any_byte is_equals (c ∷ text))) [
  | inl keyed ↦ rw keyed (segments_total _ (c ∷ text) all_permission (omega arith))
  | inr plain ↦ rw plain (_, refl)
]

-- For every text the parser's loop ends within its fuel, so that parsing yields a permission.
pub parse_total : (text : Bytes) → (r : Permission) × (parse text ≡ some r)
parse_total text = unfold parse in parse_trimmed_total (trim text)
