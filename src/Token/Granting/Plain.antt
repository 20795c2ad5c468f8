-- ===== src/Token/Granting/Plain.antt =====
-- What ValidatePermissionSet accepts has no wildcard, and which row stands at a revision
-- (backend/internal/service/apitoken.go).

use server_cli.Common.{
  ℕ, String, str_eq, str_eq_iff, Bool, true, false, not, Bool-cases, ◌≡◌, refl, subst, inl, inr,
  none, some, List, [], ◌∷◌, find_row, find_row_holds, update_rows, keyed, Unique, found_by_key,
  arith, bad_request, ok, >>=-eq-ok, guard-eq-ok,
}
use server_cli.Lease.Model.{AccessToken}
use server_cli.Token.Permissions.{
  PermissionGrant, PermissionSet, is_version_one, has_action, wildcard_in, expand, has_star,
  is_wild, is_none, has_pair, catalog, validate_actions, validate_grants, validate_permission_set,
}
use server_cli.Token.Service.{token_key, at_revision}

star_is_wild : (s : String) → is_wild s ≡ false → str_eq s "*" ≡ false
unfolding has_star
star_is_wild s h = elim (Bool-cases (str_eq s "*")) [
  | inl same ↦
      let star : is_wild "*" ≡ false =
        subst (λ x. is_wild x ≡ false) ((str_eq_iff s "*").0 same) h in
      absurd (ground (arith, star))
  | inr other ↦ other
]

not-false : (b : Bool) → not b ≡ true → b ≡ false
not-false b h = ground arith

validate_actions_plain :
    (r : String) (actions : List String) (seen seen' : List (String × String))
    → validate_actions r actions seen ≡ ok seen'
    → has_action "*" actions ≡ false
unfolding validate_actions has_action
validate_actions_plain r [] seen seen' h = refl
validate_actions_plain r (a ∷ rest) seen seen' h =
    let (plain, h1) = guard-eq-ok (not (is_wild a)) bad_request _ h in
    let (fresh, h2) = guard-eq-ok (not (has_pair r a seen)) bad_request _ h1 in
    let (known, h3) = guard-eq-ok (has_pair r a catalog) bad_request _ h2 in
    rw (star_is_wild a (not-false _ plain), validate_actions_plain r rest _ seen' h3) refl

validate_grants_plain :
    (gs : List PermissionGrant) (seen seen' : List (String × String))
    → validate_grants gs seen ≡ ok seen'
    → wildcard_in gs ≡ false
unfolding validate_grants wildcard_in
validate_grants_plain [] seen seen' h = refl
validate_grants_plain (g ∷ gs) seen seen' h =
    let (plain, h1) = guard-eq-ok (not (is_wild g.resource)) bad_request _ h in
    let (some_actions, h2) = guard-eq-ok (not (is_none g.actions)) bad_request _ h1 in
    let (mid, ha, hg) = >>=-eq-ok (validate_actions g.resource g.actions seen) _ h2 in
    rw
      (
        star_is_wild g.resource (not-false _ plain),
        validate_actions_plain g.resource g.actions seen mid ha,
        validate_grants_plain gs mid seen' hg,
      )
      refl

-- A set that may be stored is read as it stands.
pub validated_expand : (p : PermissionSet) → validate_permission_set p ≡ ok tt → expand p ≡ some p
unfolding validate_permission_set expand
validated_expand p h =
    let (one, h1) = guard-eq-ok (is_version_one p.version) bad_request _ h in
    let (seen, hg, done) = >>=-eq-ok (validate_grants p.grants []) _ h1 in
    rw (one, validate_grants_plain p.grants [] seen hg) refl

-- The row at a revision is the row with the identifier.
pub revision_row :
    (rows : List AccessToken) (now : ℕ) (id : String) (rev : ℕ) (x : AccessToken)
    → Unique token_key rows
    → find_row (at_revision now id rev) rows ≡ some x
    → (find_row (keyed token_key id) rows ≡ some x) × (x.permission_version ≡ rev)
revision_row rows now id rev x d h =
    let holds = find_row_holds (at_revision now id rev) rows x h in
    let same : x.id ≡ id = (str_eq_iff x.id id).0 (ground (arith, holds)) in
    (
      subst (λ i. find_row (keyed token_key i) rows ≡ some x) same
          (found_by_key token_key (at_revision now id rev) rows x d h),
      ground (arith, holds),
    )

pub update_rows-none :
    (p : AccessToken → Bool) (f : AccessToken → AccessToken) (xs : List AccessToken)
    → find_row p xs ≡ none
    → update_rows p f xs ≡ xs
unfolding update_rows find_row
update_rows-none p f [] h = refl
update_rows-none p f (x ∷ xs) h = ground (arith, update_rows-none p f xs)
