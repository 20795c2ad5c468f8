-- ===== src/Token/Storable.antt =====
-- ValidatePermissionSet of backend/internal/service/apitoken.go against what may be stored.
use server_cli.Common.{
  String, str_eq, str_eq_sym, str_eq_iff, Bool, true, false, not, ◌&&◌, Bool-cases, ◌≡◌, ◌↔◌, refl,
  sym, subst, inl, inr, List, [], ◌∷◌, ◌++◌, All, arith, bad_request, ok, ok_inj, >>=-eq-ok,
  guard-eq-ok,
}
use server_cli.Token.Permissions.{
  PermissionGrant, PermissionSet, is_version_one, has_star, is_wild, is_none, has_pair, catalog,
  validate_actions, validate_grants, validate_permission_set,
}

abbrev pub with_resource : String → List String → List (String × String)
with_resource r [] = []
with_resource r (a ∷ rest) = (r, a) ∷ with_resource r rest

-- The permissions of all grants, resources with actions.
abbrev pub pairs_of : List PermissionGrant → List (String × String)
pairs_of [] = []
pairs_of (g ∷ gs) = with_resource g.resource g.actions ++ pairs_of gs

abbrev pub InCatalog : String × String → Type 0
InCatalog q = has_pair q.0 q.1 catalog ≡ true

abbrev pub Distinct : List (String × String) → Type 0
Distinct [] = Unit
Distinct (q ∷ qs) = (has_pair q.0 q.1 qs ≡ false) × Distinct qs

-- A set that may be stored: of version 1, without a grant of no actions, and with permissions of
-- the catalog only, none of them twice.
pub record Storable (p : PermissionSet) : Type 0 where
  pub version : is_version_one p.version ≡ true
  pub has_actions : All (λ (g : PermissionGrant). is_none g.actions ≡ false) p.grants
  pub known : All InCatalog (pairs_of p.grants)
  pub distinct : Distinct (pairs_of p.grants)

-- No name of the catalog is empty or has a wildcard.
all_plain : List (String × String) → Bool
all_plain [] = true
all_plain ((r, a) ∷ ps) = not (is_wild r) && not (is_wild a) && all_plain ps

plain_in :
    (r a : String) (ps : List (String × String))
    → all_plain ps ≡ true
    → has_pair r a ps ≡ true
    → (is_wild r ≡ false) × (is_wild a ≡ false)
unfolding has_pair all_plain
plain_in r a [] p h = ground arith
plain_in r a ((s, b) ∷ ps) p h = elim (Bool-cases (str_eq s r && str_eq b a)) [
  | inl here ↦
      let same_resource : s ≡ r = (str_eq_iff s r).0 (ground (arith, here)) in
      let same_action : b ≡ a = (str_eq_iff b a).0 (ground (arith, here)) in
      (
        subst (λ x. is_wild x ≡ false) same_resource (ground (arith, p)),
        subst (λ x. is_wild x ≡ false) same_action (ground (arith, p)),
      )
  | inr other ↦ plain_in r a ps (ground (arith, p)) (ground (arith, other, h))
]

catalog_plain : all_plain catalog ≡ true
unfolding all_plain has_star str_eq
catalog_plain = refl

-- The walk over the permissions, with those seen before.
abbrev Walk : List (String × String) → List (String × String) → Type 0
Walk seen [] = Unit
Walk seen (q ∷ qs) = InCatalog q × (has_pair q.0 q.1 seen ≡ false) × Walk (q ∷ seen) qs

abbrev push : List (String × String) → List (String × String) → List (String × String)
push [] seen = seen
push (q ∷ qs) seen = push qs (q ∷ seen)

Walk-append :
    (ps qs seen : List (String × String))
    → Walk seen (ps ++ qs) ↔ (Walk seen ps × Walk (push ps seen) qs)
Walk-append [] qs seen = (λ w. (tt, w), λ w. w.1)
Walk-append (p ∷ ps) qs seen =
    let (to, from) = Walk-append ps qs (p ∷ seen) in
    (
      λ (known, fresh, w). let (a, b) = to w in ((known, fresh, a), b),
      λ ((known, fresh, a), b). (known, fresh, from (a, b)),
    )

abbrev Apart : List (String × String) → List (String × String) → Type 0
Apart seen = All (λ q. has_pair q.0 q.1 seen ≡ false)

Apart-seen :
    (r a : String) (seen ps : List (String × String))
    → Apart ((r, a) ∷ seen) ps ↔ ((has_pair r a ps ≡ false) × Apart seen ps)
unfolding has_pair
Apart-seen r a seen [] = (λ h. (refl, tt), λ h. tt)
Apart-seen r a seen ((s, b) ∷ ps) =
    let (to, from) = Apart-seen r a seen ps in
    (
      λ (h, rest).
          let (new, others) = to rest in
          (ground (arith, str_eq_sym s r, str_eq_sym b a, h, new), (ground (arith, h), others)),
      λ (new, (h, others)). (
        ground (arith, str_eq_sym s r, str_eq_sym b a, h, new),
        from (ground (arith, new), others),
      ),
    )

Walk-exact :
    (ps seen : List (String × String))
    → Walk seen ps ↔ (All InCatalog ps × Distinct ps × Apart seen ps)
Walk-exact [] seen = (λ w. (tt, tt, tt), λ w. tt)
Walk-exact ((r, a) ∷ ps) seen =
    let (to, from) = Walk-exact ps ((r, a) ∷ seen) in
    let (split, join_back) = Apart-seen r a seen ps in
    (
      λ (known, fresh, w).
          let (all_known, distinct, apart) = to w in
          let (new, others) = split apart in ((known, all_known), (new, distinct), (fresh, others)),
      λ ((known, all_known), (new, distinct), (fresh, others)).
          (known, fresh, from (all_known, distinct, join_back (new, others))),
    )

validate_actions-Walk :
    (r : String) (actions : List String) (seen seen' : List (String × String))
    → validate_actions r actions seen ≡ ok seen'
    → Walk seen (with_resource r actions) × (push (with_resource r actions) seen ≡ seen')
unfolding validate_actions
validate_actions-Walk r [] seen seen' h = (tt, ok_inj h)
validate_actions-Walk r (a ∷ rest) seen seen' h =
    let (plain, h1) = guard-eq-ok (not (is_wild a)) bad_request _ h in
    let (fresh, h2) = guard-eq-ok (not (has_pair r a seen)) bad_request _ h1 in
    let (known, h3) = guard-eq-ok (has_pair r a catalog) bad_request _ h2 in
    let (w, e) = validate_actions-Walk r rest ((r, a) ∷ seen) seen' h3 in
    ((known, ground (arith, fresh), w), e)

Walk-validate_actions :
    (r : String) (actions : List String) (seen : List (String × String))
    → Walk seen (with_resource r actions)
    → validate_actions r actions seen ≡ ok (push (with_resource r actions) seen)
unfolding validate_actions
Walk-validate_actions r [] seen w = refl
Walk-validate_actions r (a ∷ rest) seen (known, fresh, w) =
    let (plain_resource, plain) = plain_in r a catalog catalog_plain known in
    rw (plain, fresh, known) (Walk-validate_actions r rest ((r, a) ∷ seen) w)

validate_grants-Walk :
    (gs : List PermissionGrant) (seen seen' : List (String × String))
    → validate_grants gs seen ≡ ok seen'
    → All (λ (g : PermissionGrant). is_none g.actions ≡ false) gs × Walk seen (pairs_of gs)
unfolding validate_grants
validate_grants-Walk [] seen seen' h = (tt, tt)
validate_grants-Walk (g ∷ gs) seen seen' h =
    let (plain, h1) = guard-eq-ok (not (is_wild g.resource)) bad_request _ h in
    let (some_actions, h2) = guard-eq-ok (not (is_none g.actions)) bad_request _ h1 in
    let (mid, ha, hg) = >>=-eq-ok (validate_actions g.resource g.actions seen) _ h2 in
    let (w, e) = validate_actions-Walk g.resource g.actions seen mid ha in
    let (others, ws) = validate_grants-Walk gs mid seen' hg in
    (
      (ground (arith, some_actions), others),
      (Walk-append (with_resource g.resource g.actions) (pairs_of gs) seen).1
          (w, subst (λ s. Walk s (pairs_of gs)) (sym e) ws),
    )

resource_plain :
    (r : String) (actions : List String) (seen : List (String × String))
    → is_none actions ≡ false
    → Walk seen (with_resource r actions)
    → is_wild r ≡ false
resource_plain r [] seen h w = ground arith
resource_plain r (a ∷ rest) seen h (known, fresh, w) = (plain_in r a catalog catalog_plain known).0

Walk-validate_grants :
    (gs : List PermissionGrant) (seen : List (String × String))
    → All (λ (g : PermissionGrant). is_none g.actions ≡ false) gs
    → Walk seen (pairs_of gs)
    → (seen' : List (String × String)) × (validate_grants gs seen ≡ ok seen')
unfolding validate_grants
Walk-validate_grants [] seen a w = (seen, refl)
Walk-validate_grants (g ∷ gs) seen (some_actions, others) w =
    let (here, later) = (Walk-append (with_resource g.resource g.actions) (pairs_of gs) seen).0 w in
    let (seen', rest) = Walk-validate_grants gs _ others later in
    (
      seen',
      rw
          (
            resource_plain g.resource g.actions seen some_actions here,
            some_actions,
            Walk-validate_actions g.resource g.actions seen here,
          )
          rest,
    )

none_seen : (ps : List (String × String)) → Apart [] ps
unfolding has_pair
none_seen [] = tt
none_seen (p ∷ ps) = (refl, none_seen ps)

-- ValidatePermissionSet accepts exactly the sets that may be stored.
pub validate_permission_set_exact :
    (p : PermissionSet) → (validate_permission_set p ≡ ok tt) ↔ Storable p
unfolding validate_permission_set
validate_permission_set_exact p = (accepted, accepts)
  where
    accepted : validate_permission_set p ≡ ok tt → Storable p
    accepted h =
        let (one, h1) = guard-eq-ok (is_version_one p.version) bad_request _ h in
        let (seen, hg, done) = >>=-eq-ok (validate_grants p.grants []) _ h1 in
        let (some_actions, w) = validate_grants-Walk p.grants [] seen hg in
        let (known, distinct, apart) = (Walk-exact (pairs_of p.grants) []).0 w in
        record { version = one; has_actions = some_actions; known = known; distinct = distinct }

    accepts : Storable p → validate_permission_set p ≡ ok tt
    accepts s =
        let w =
          (Walk-exact (pairs_of p.grants) []).1
            (s.known, s.distinct, none_seen (pairs_of p.grants)) in
        let (seen, h) = Walk-validate_grants p.grants [] s.has_actions w in rw (s.version, h) refl
