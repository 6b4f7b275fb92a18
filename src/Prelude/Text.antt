-- ===== src/Prelude/Text.antt =====
-- Text as a list of bytes: `std::string`, `std::string_view`, and the C locale's character classes.
use Prim.Native.Char.{code}
use Prim.Native.Nat.{ℕ, ◌+◌, ◌-◌, ◌≤◌}
use Prim.Native.String.{String}
use mathlib.Core.Bool.{Bool, true, false, ◌&&◌, ◌||◌}
use mathlib.Core.List.{List, [], ◌∷◌, ◌++◌}
use mathlib.Core.Logic.{◌↔◌}
use mathlib.Core.Path.{◌≡◌, refl}
use native.Mathlib.Omega.{arith}
use bas_cpp.Prelude.Lists.{length}
use bas_cpp.Prelude.Tests.{◌==◌, leb, if◌then◌else◌}

abbrev pub Bytes : Type 0
Bytes = List ℕ

-- The bytes of an ASCII literal.
abbrev pub codes : String → Bytes
codes String.[] = []
codes (String.◌∷◌ c s) = code c ∷ codes s

-- `a == b` on strings.
abbrev pub str_eq : Bytes → Bytes → Bool
str_eq [] [] = true
str_eq [] (d ∷ t) = false
str_eq (c ∷ s) [] = false
str_eq (c ∷ s) (d ∷ t) = (c == d) && str_eq s t

pub str_eq_iff : (s t : Bytes) → (str_eq s t ≡ true) ↔ (s ≡ t)
str_eq_iff [] [] = ground arith
str_eq_iff [] (d ∷ t) = ground arith
str_eq_iff (c ∷ s) [] = ground arith
str_eq_iff (c ∷ s) (d ∷ t) = ground (arith, str_eq_iff s t)

pub str_eq_refl : (s : Bytes) → str_eq s s ≡ true
str_eq_refl s = (str_eq_iff s s).1 refl

-- std::isspace
unfoldable pub is_space : ℕ → Bool
is_space c = c == 32 || (leb 9 c && leb c 13)

-- std::isdigit
unfoldable pub is_digit : ℕ → Bool
is_digit c = leb b'0' c && leb c b'9'

-- std::isalpha
unfoldable pub is_alpha : ℕ → Bool
is_alpha c = (leb b'A' c && leb c b'Z') || (leb b'a' c && leb c b'z')

-- Everything before the first byte at which `stop` holds: a scan `while (i < size && !stop(s[i])) ++i`.
abbrev pub scan_until : (ℕ → Bool) → Bytes → Bytes
scan_until stop [] = []
scan_until stop (c ∷ s) = if stop c then [] else c ∷ scan_until stop s

-- What such a scan leaves unread.
abbrev pub rest_from : (ℕ → Bool) → Bytes → Bytes
rest_from stop [] = []
rest_from stop (c ∷ s) = if stop c then c ∷ s else rest_from stop s

-- `s.find(c) != npos`, for one byte or for a class of bytes.
abbrev pub any_byte : (ℕ → Bool) → Bytes → Bool
any_byte p [] = false
any_byte p (c ∷ s) = p c || any_byte p s

pub scan-append-rest : (stop : ℕ → Bool) (s : Bytes) → scan_until stop s ++ rest_from stop s ≡ s
scan-append-rest stop [] = refl
scan-append-rest stop (c ∷ s) = ground (arith, scan-append-rest stop s)

pub length-rest_from : (stop : ℕ → Bool) (s : Bytes) → length (rest_from stop s) ≤ length s
length-rest_from stop [] = omega arith
length-rest_from stop (c ∷ s) = ground (arith, length-rest_from stop s)

pub str_ne : (s t : Bytes) → str_eq s t ≡ false → ¬ (s ≡ t)
str_ne s t h e = cc (h, (str_eq_iff s t).1 e)

-- std::toupper
unfoldable pub to_upper : ℕ → ℕ
to_upper c = if leb b'a' c && leb c b'z' then c - 32 else c

-- std::tolower
unfoldable pub to_lower : ℕ → ℕ
to_lower c = if leb b'A' c && leb c b'Z' then c + 32 else c

pub to_lower-to_upper : (c : ℕ) → to_lower (to_upper c) ≡ to_lower c
unfolding to_lower to_upper
to_lower-to_upper c = ground arith
