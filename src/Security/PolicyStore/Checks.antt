-- ===== src/Security/PolicyStore/Checks.antt =====
-- The policy checks (`policyFind`, `policyCheck`, `policyCheckAny` of
-- src/bas/security/PolicyStore.cpp): they agree with the request resolver, count active identities
-- only, and see a change of the store where it bears on the identity.
use bas_cpp.Prelude.{
  ℕ, ◌≡◌, ◌≢◌, ◌↔◌, refl, ◌∙◌, ap, false, Option, none, some, List, [], ◌∷◌, ◌++◌, map, arith,
  if◌then◌else◌, filter, Bytes, str_eq, str_eq_iff, Bool-cases, inl, inr, All,
}
use bas_cpp.Security.Acl.{AcEntry, AcList, AceMatch, AccessDecisionType, AccessGrant, PolicyBinding}
use bas_cpp.Security.Permission.{Permission}
use bas_cpp.Security.Realm.{Identity, IdentityRef, ref, ref_equal, is_active}
use bas_cpp.Security.Resolver.{resolve_request}
use bas_cpp.Security.Resolver.Votes.{Vote}
use bas_cpp.Security.Resolver.Matches.{vote_of, resolve_matches_iff}
use bas_cpp.Security.Resolver.Request.{votes_on, resolve_request_iff}
use bas_cpp.Security.Types.{AccessEffect, priority}
use bas_cpp.Security.PolicyStore.{
  PolicyStore, find_matches, policy_find, policy_check, raise_specificity, gather, policy_check_any,
  effective_entries_of, grants_of, bindings_of, all_bound, bound_entries, remove_acl, get_acl,
  other_binding,
}
use bas_cpp.Security.PolicyStore.Acls.{get_acl_laws}

map-find_matches :
    (i : IdentityRef) (p : Permission) (es : List AcEntry)
    → map vote_of (find_matches i p es) ≡ votes_on p es
unfolding find_matches votes_on
map-find_matches i p [] = refl
map-find_matches i p (e ∷ es) = ground (arith, map-find_matches i p es)

-- The policy check of an identity allows a permission exactly if the request resolver allows it from
-- the entries in force for that identity.
pub policy_check_agrees :
    (s : PolicyStore) (i : IdentityRef) (p : Permission)
    → (policy_check s i p ≡ AccessEffect.allow)
      ↔ ((resolve_request p (effective_entries_of s i)).type ≡ AccessDecisionType.allow)
unfolding policy_check policy_find
policy_check_agrees s i p =
    let es = effective_entries_of s i in
    let left = (resolve_matches_iff (find_matches i p es)).1 in
    let right = (resolve_request_iff p es).0 in
    let same = map-find_matches i p es in
    (λ h. right.1 (rw same at left.0 h), λ h. left.1 (rw (← same) at right.0 h))

votes-raise_specificity :
    (n : ℕ) (ms : List AceMatch) → map vote_of (raise_specificity n ms) ≡ map vote_of ms
unfolding raise_specificity
votes-raise_specificity n [] = refl
votes-raise_specificity n (m ∷ ms) =
    ap (λ (vs : List Vote). vote_of m ∷ vs) (votes-raise_specificity n ms)

map-vote_append :
    (xs ys : List AceMatch) → map vote_of (xs ++ ys) ≡ map vote_of xs ++ map vote_of ys
map-vote_append [] ys = refl
map-vote_append (x ∷ xs) ys = ap (λ (vs : List Vote). vote_of x ∷ vs) (map-vote_append xs ys)

-- The entries in force for the identities that are active.
pub active_entries : PolicyStore → List Identity → ℕ → List AcEntry
active_entries s [] now = []
active_entries s (i ∷ is) now =
    let rest = active_entries s is now in
    if is_active i now then effective_entries_of s (ref i) ++ rest else rest

votes_on-append :
    (p : Permission) (es fs : List AcEntry) → votes_on p (es ++ fs) ≡ votes_on p es ++ votes_on p fs
unfolding votes_on
votes_on-append p [] fs = refl
votes_on-append p (e ∷ es) fs = ground (arith, votes_on-append p es fs)

votes-gather :
    (s : PolicyStore) (is : List Identity) (p : Permission) (now : ℕ)
    → map vote_of (gather s is p now) ≡ votes_on p (active_entries s is now)
unfolding gather active_entries
votes-gather s [] p now = unfold votes_on in refl
votes-gather s (i ∷ is) p now = elim (Bool-cases (is_active i now)) [
  | inl active ↦
      rw
        (
          active,
          map-vote_append,
          votes_on-append,
          votes-gather s is p now,
          votes-raise_specificity (priority i.source) (policy_find s (ref i) p),
        )
        (unfold policy_find in rw (map-find_matches (ref i) p (effective_entries_of s (ref i))))
  | inr idle ↦ rw idle (votes-gather s is p now)
]

-- The check over several identities allows a permission exactly if the request resolver allows it
-- from the entries of the active ones together: where an identity comes from changes nothing.
pub policy_check_any_agrees :
    (s : PolicyStore) (is : List Identity) (p : Permission) (now : ℕ)
    → (policy_check_any s is p now ≡ AccessEffect.allow)
      ↔ ((resolve_request p (active_entries s is now)).type ≡ AccessDecisionType.allow)
unfolding policy_check_any
policy_check_any_agrees s is p now =
    let left = (resolve_matches_iff (gather s is p now)).1 in
    let right = (resolve_request_iff p (active_entries s is now)).0 in
    let same = votes-gather s is p now in
    (λ h. right.1 (rw same at left.0 h), λ h. left.1 (rw (← same) at right.0 h))

-- No binding of the list is for the name.
abbrev pub Unbound : Bytes → List PolicyBinding → Type 0
Unbound k = All (λ b. b.acl_id ≢ k)

filter_both :
    (i : IdentityRef) (k : Bytes) (bs : List PolicyBinding)
    → Unbound k (filter (λ b. ref_equal b.identity i) bs)
    → filter (λ b. ref_equal b.identity i) (filter (other_binding k) bs)
      ≡ filter (λ b. ref_equal b.identity i) bs
unfolding other_binding
filter_both i k [] h = refl
filter_both i k (b ∷ bs) h = elim (Bool-cases (ref_equal b.identity i)) [
  | inl mine ↦
      let h' = rw mine at h in
      let keep : str_eq b.acl_id k ≡ false = ground (arith, str_eq_iff b.acl_id k, h'.0) in
      rw (keep, mine) (ap (λ (r : List PolicyBinding). b ∷ r) (filter_both i k bs h'.1))
  | inr theirs ↦
      let ih = filter_both i k bs (rw theirs at h) in
      elim (Bool-cases (str_eq b.acl_id k)) [
        | inl named ↦ rw (named, theirs) ih
        | inr other ↦ rw (other, theirs) ih
      ]
]

get_acl_other : (s : PolicyStore) (k j : Bytes) → j ≢ k → get_acl (remove_acl s k) j ≡ get_acl s j
get_acl_other s k j h =
    (get_acl_laws s (record { id = k; entries = [] }) k j).0 ∙ ground (arith, str_eq_iff k j)

bound_entries_other :
    (s : PolicyStore) (k : Bytes) (b : PolicyBinding)
    → b.acl_id ≢ k
    → bound_entries (remove_acl s k) b ≡ bound_entries s b
unfolding bound_entries
bound_entries_other s k b h =
    ap
      (λ (o : Option AcList).
        let es : List AcEntry = elim o [ none ↦ [] | some acl ↦ acl.entries ] in es)
      (get_acl_other s k b.acl_id h)

all_bound-remove_acl :
    (s : PolicyStore) (k : Bytes) (bs : List PolicyBinding)
    → Unbound k bs
    → all_bound (remove_acl s k) bs ≡ all_bound s bs
unfolding all_bound
all_bound-remove_acl s k [] h = refl
all_bound-remove_acl s k (b ∷ bs) h =
    rw (bound_entries_other s k b h.0, all_bound-remove_acl s k bs h.1)

-- The removal of a list leaves the entries in force for an identity as they are, if no binding of
-- that identity is for the list.
pub remove_acl_frame :
    (s : PolicyStore) (k : Bytes) (i : IdentityRef)
    → Unbound k (bindings_of s i)
    → effective_entries_of (remove_acl s k) i ≡ effective_entries_of s i
unfolding effective_entries_of bindings_of grants_of remove_acl
remove_acl_frame s k i h =
    ap (λ (es : List AcEntry). map (λ (g : AccessGrant). g.ace) (grants_of s i) ++ es)
      (ap (all_bound (remove_acl s k)) (filter_both i k s.bindings h)
        ∙ all_bound-remove_acl s k _ h)
