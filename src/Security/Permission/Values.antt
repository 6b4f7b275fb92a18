-- ===== src/Security/Permission/Values.antt =====
-- Quoting, escaping and reading one value of a permission's text: `quoteValue` and `parseValue` of
-- src/bas/security/Permission.cpp.
use bas_cpp.Prelude.{
  ℕ, ◌≡◌, ◌≢◌, refl, ap, false, ◌||◌, [], ◌∷◌, ◌++◌, append_assoc, inl, inr, arith, Bytes,
  rest_from, scan_until, is_space, All, Bool-cases, ◌==◌,
}
use bas_cpp.Security.Permission.{
  needs_quoting, needs_quotes, escape, quote_value, read_quoted, prepend, value_at, parse_value,
  trim_right, is_visible, is_semicolon, is_quote,
}

read_plain :
    (c : ℕ) (text : Bytes)
    → (c == b'"' || c == b'\\') ≡ false
    → text ≢ []
    → read_quoted b'"' (c ∷ text) ≡ prepend c (read_quoted b'"' text)
unfolding read_quoted
read_plain c [] plain h = absurd (h refl)
read_plain c (d ∷ text) plain h = ground arith

read_escaped :
    (c : ℕ) (text : Bytes) → read_quoted b'"' (b'\\' ∷ c ∷ text) ≡ prepend c (read_quoted b'"' text)
unfolding read_quoted
read_escaped c text = refl

append-cons-ne-nil : (s : Bytes) (c : ℕ) (t : Bytes) → s ++ c ∷ t ≢ []
append-cons-ne-nil [] c t h = cc
append-cons-ne-nil (d ∷ s) c t h = cc

-- Escaping and the closing quote are undone by the reader of quoted values.
read_quoted-escape :
    (value rest : Bytes) → read_quoted b'"' (escape value ++ b'"' ∷ rest) ≡ (value, rest)
unfolding escape
read_quoted-escape [] [] = unfold read_quoted in refl
read_quoted-escape [] (c ∷ rest) = unfold read_quoted in refl
read_quoted-escape (ch ∷ value) rest = elim (Bool-cases (ch == b'"' || ch == b'\\')) [
  | inl special ↦ rw (special, read_escaped) (ap (prepend ch) (read_quoted-escape value rest))
  | inr plain ↦
      rw (plain, read_plain ch _ plain (append-cons-ne-nil (escape value) b'"' rest))
        (ap (prepend ch) (read_quoted-escape value rest))
]

-- A text that ends, and ends in a byte that is no space.
abbrev pub EndsTight : Bytes → Type 0
EndsTight [] = ⊥
EndsTight (c ∷ []) = is_space c ≡ false
EndsTight (c ∷ d ∷ text) = EndsTight (d ∷ text)

pub EndsTight-append : (s t : Bytes) → EndsTight t → EndsTight (s ++ t)
EndsTight-append [] t h = h
EndsTight-append (c ∷ []) [] h = elim h [ ]
EndsTight-append (c ∷ []) (d ∷ t) h = h
EndsTight-append (c ∷ d ∷ s) t h = EndsTight-append (d ∷ s) t h

pub trim_right-EndsTight : (s : Bytes) → EndsTight s → trim_right s ≡ s
unfolding trim_right
trim_right-EndsTight [] h = refl
trim_right-EndsTight (c ∷ []) h = rw h
trim_right-EndsTight (c ∷ d ∷ s) h = rw (trim_right-EndsTight (d ∷ s) h) (ground arith)

-- What `needsQuotes` answers for a text that it leaves bare.
IsPlain : Bytes → Type 0
IsPlain = All (λ c. needs_quoting c ≡ false)

IsPlain-needs_quotes : (value : Bytes) → needs_quotes value ≡ false → IsPlain value
unfolding needs_quotes IsPlain
IsPlain-needs_quotes [] h = tt
IsPlain-needs_quotes (ch ∷ value) h = (ground arith, IsPlain-needs_quotes value (ground arith))

plain_visible : (c : ℕ) → needs_quoting c ≡ false → is_space c ≡ false
unfolding needs_quoting
plain_visible c h = ground arith

EndsTight-IsPlain : (value : Bytes) → value ≢ [] → IsPlain value → EndsTight value
unfolding IsPlain
EndsTight-IsPlain [] h plain = h refl
EndsTight-IsPlain (c ∷ []) h plain = plain_visible c plain.0
EndsTight-IsPlain (c ∷ d ∷ value) h plain = EndsTight-IsPlain (d ∷ value) (λ e. cc e) plain.1

-- What follows a value in the canonical text.
pub data IsTail : Bytes → Type 0 where
  end : IsTail []
  next : (text : Bytes) → IsTail (b';' ∷ text)

scan-IsPlain :
    (value tail : Bytes)
    → IsPlain value
    → IsTail tail
    → (scan_until is_semicolon (value ++ tail) ≡ value)
      × (rest_from is_semicolon (value ++ tail) ≡ tail)
unfolding IsPlain is_semicolon needs_quoting
scan-IsPlain [] [] plain end = (refl, refl)
scan-IsPlain [] (c ∷ tail) plain (next text) = (refl, refl)
scan-IsPlain (c ∷ value) tail plain h = ground (arith, scan-IsPlain value tail plain.1 h)

parse_value_quoted : (text : Bytes) → parse_value (b'"' ∷ text) ≡ read_quoted b'"' text
unfolding parse_value value_at is_visible is_space is_quote
parse_value_quoted text = refl

parse_value_plain :
    (c : ℕ) (text : Bytes)
    → needs_quoting c ≡ false
    → parse_value (c ∷ text)
      ≡ (trim_right (scan_until is_semicolon (c ∷ text)), rest_from is_semicolon (c ∷ text))
unfolding parse_value value_at is_visible is_quote needs_quoting
parse_value_plain c text plain = ground arith

-- A value that is written is read back, whatever stands behind it.
pub parse_value-quote_value :
    (value tail : Bytes)
    → value ≢ []
    → IsTail tail
    → parse_value (quote_value value ++ tail) ≡ (value, tail)
unfolding quote_value
parse_value-quote_value [] tail h t = absurd (h refl)
parse_value-quote_value (c ∷ value) tail h t = elim (Bool-cases (needs_quotes (c ∷ value))) [
  | inl quoted ↦ rw (quoted, parse_value_quoted, append_assoc) (read_quoted-escape (c ∷ value) tail)
  | inr bare ↦
      let plain = IsPlain-needs_quotes (c ∷ value) bare in
      let parts = scan-IsPlain (c ∷ value) tail plain t in
      rw (
        bare,
        parse_value_plain c (value ++ tail) (unfold IsPlain in plain.0),
        parts.0,
        parts.1,
        trim_right-EndsTight (c ∷ value) (EndsTight-IsPlain (c ∷ value) h plain),
      )
]

pub EndsTight-quote_value : (value : Bytes) → value ≢ [] → EndsTight (quote_value value)
unfolding quote_value
EndsTight-quote_value value h = elim (Bool-cases (needs_quotes value)) [
  | inl quoted ↦
      rw quoted (EndsTight-append (b'"' ∷ escape value) (b'"' ∷ []) (unfold is_space in refl))
  | inr bare ↦ rw bare (EndsTight-IsPlain value h (IsPlain-needs_quotes value bare))
]
