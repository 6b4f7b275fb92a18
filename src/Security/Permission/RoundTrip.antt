-- ===== src/Security/Permission/RoundTrip.antt =====
-- The canonical text of a permission (`toString` of src/bas/security/Permission.cpp) is read back by
-- `parse`, whatever bytes the two fields hold.
use bas_cpp.Prelude.{
  ℕ, suc, ◌≡◌, ◌≢◌, refl, sym, ap, ◌∙◌, false, Option, some, [], ◌∷◌, ◌++◌, append_assoc,
  append-nil, Bytes, codes, is_space,
}
use bas_cpp.Security.Permission.{
  Permission, all_permission, quote_value, to_string, trim_right, is_visible, is_key_end,
  is_key_start, after_key, assign, segment, segments, parse_trimmed, parse, trim, is_equals,
}
use bas_cpp.Security.Permission.Values.{
  EndsTight, EndsTight-append, trim_right-EndsTight, IsTail, end, next, parse_value-quote_value,
  EndsTight-quote_value,
}

-- One round of the parser reads one field of the canonical text.
segment-action :
    (value tail : Bytes) (p : Permission)
    → value ≢ []
    → IsTail tail
    → segment (codes "action=" ++ (quote_value value ++ tail)) p
      ≡ (tail, record p { action = value })
unfolding segment after_key is_key_start is_key_end is_space trim_right assign
segment-action value tail p h t = rw (parse_value-quote_value value tail h t)

segment-resource :
    (value tail : Bytes) (p : Permission)
    → value ≢ []
    → IsTail tail
    → segment (codes "resource=" ++ (quote_value value ++ tail)) p
      ≡ (tail, record p { resource = value })
unfolding segment after_key is_key_start is_key_end is_space trim_right assign
segment-resource value tail p h t = rw (parse_value-quote_value value tail h t)

trim_lem :
    (c : ℕ) (text : Bytes) → is_space c ≡ false → EndsTight (c ∷ text) → trim (c ∷ text) ≡ c ∷ text
unfolding trim is_visible
trim_lem c text start h = rw start (trim_right-EndsTight (c ∷ text) h)

segments_step :
    (fuel c : ℕ) (text rest : Bytes) (p q : Permission)
    → segment (c ∷ text) p ≡ (rest, q)
    → segments (suc fuel) (c ∷ text) p ≡ segments fuel rest q
unfolding segments
segments_step fuel c text rest p q h = rw h

-- The last field of the canonical text ends the loop.
segments_end :
    (fuel c : ℕ) (text : Bytes) (p q : Permission)
    → segment (c ∷ text) p ≡ ([], q)
    → segments (suc (suc fuel)) (c ∷ text) p ≡ some q
unfolding segments
segments_end fuel c text p q h = segments_step (suc fuel) c text [] p q h

-- A separator in front of a field is passed over.
segment-separator : (text : Bytes) (p : Permission) → segment (b';' ∷ text) p ≡ segment text p
unfolding segment is_key_start
segment-separator text p = refl

segment-action_last :
    (a : Bytes) (p : Permission)
    → a ≢ []
    → segment (codes "action=" ++ quote_value a) p ≡ ([], record p { action = a })
segment-action_last a p h =
    ap (λ (t : Bytes). segment (codes "action=" ++ t) p) (sym (append-nil (quote_value a)))
    ∙ segment-action a [] p h end

segment-resource_last :
    (r : Bytes) (p : Permission)
    → r ≢ []
    → segment (codes "resource=" ++ quote_value r) p ≡ ([], record p { resource = r })
segment-resource_last r p h =
    ap (λ (t : Bytes). segment (codes "resource=" ++ t) p) (sym (append-nil (quote_value r)))
    ∙ segment-resource r [] p h end

parse_action :
    (a : Bytes)
    → a ≢ []
    → parse_trimmed (codes "action=" ++ quote_value a) ≡ some (record { action = a; resource = [] })
unfolding parse_trimmed is_equals
parse_action a h = segments_end _ _ _ all_permission _ (segment-action_last a all_permission h)

parse_resource :
    (r : Bytes)
    → r ≢ []
    → parse_trimmed (codes "resource=" ++ quote_value r)
      ≡ some (record { action = []; resource = r })
unfolding parse_trimmed is_equals
parse_resource r h = segments_end _ _ _ all_permission _ (segment-resource_last r all_permission h)

parse_both :
    (a r : Bytes)
    → a ≢ []
    → r ≢ []
    → parse_trimmed
        (codes "action=" ++ (quote_value a ++ b';' ∷ (codes "resource=" ++ quote_value r)))
      ≡ some (record { action = a; resource = r })
unfolding parse_trimmed is_equals
parse_both a r ha hr =
    segments_step _ _ _ _ all_permission (record { action = a; resource = [] })
      (segment-action a _ all_permission ha (next _))
    ∙ segments_end _ _ _ _ _
        (segment-separator _ _ ∙ segment-resource_last r (record { action = a; resource = [] }) hr)

parse_tight :
    (c : ℕ) (text : Bytes) {q : Option Permission}
    → is_space c ≡ false
    → EndsTight (c ∷ text)
    → parse_trimmed (c ∷ text) ≡ q
    → parse (c ∷ text) ≡ q
unfolding parse
parse_tight c text start h e = ap parse_trimmed (trim_lem c text start h) ∙ e

round_trip :
    (a r : Bytes)
    → parse (to_string (record { action = a; resource = r }))
      ≡ some (record { action = a; resource = r })
unfolding to_string
round_trip [] [] = unfold parse in refl
round_trip (c ∷ a) [] =
    parse_tight b'a' _ (unfold is_space in refl)
      (EndsTight-append (codes "action=") (quote_value (c ∷ a))
        (EndsTight-quote_value (c ∷ a) (λ e. cc e)))
      (parse_action (c ∷ a) (λ e. cc e))
round_trip [] (d ∷ r) =
    parse_tight b'r' _ (unfold is_space in refl)
      (EndsTight-append (codes "resource=") (quote_value (d ∷ r))
        (EndsTight-quote_value (d ∷ r) (λ e. cc e)))
      (parse_resource (d ∷ r) (λ e. cc e))
round_trip (c ∷ a) (d ∷ r) = rw (append_assoc (quote_value (c ∷ a)) (b';' ∷ [])) (
    parse_tight b'a' _ (unfold is_space in refl)
      (EndsTight-append (codes "action=" ++ quote_value (c ∷ a)) _ (
        EndsTight-append (codes ";resource=") (quote_value (d ∷ r))
          (EndsTight-quote_value (d ∷ r) (λ e. cc e))))
      (parse_both (c ∷ a) (d ∷ r) (λ e. cc e) (λ e. cc e)))

-- Every permission is read back from its canonical text, whatever bytes its two fields hold.
pub parse-to_string : (p : Permission) → parse (to_string p) ≡ some p
parse-to_string p = round_trip p.action p.resource
