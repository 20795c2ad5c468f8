-- ===== src/Token/Resolving.antt =====
-- What a resolved token may do (Resolve and Authorize of backend/internal/service/apitoken.go), and
-- that a revoked token is resolved no more.
use text.Mathlib.Text.{starts_with}
use mathlib.Core.Option
use server_cli.Common.{
  ℕ, String, str_eq, str_eq_iff, str_eq_refl, true, false, ◌&&◌, Bool-cases, ◌≡◌, ◌≢◌, refl, sym,
  ap, subst, ◌∙◌, ◌⊎◌, inl, inr, none, some, Option-cases, some_inj, List, [], ◌∷◌, find_row,
  find_row-update_rows, is_some, is_some-none, none_not_some, update_rows, arith, ok,
}
use server_cli.Lease.Model.{AccessToken, Principal, Lease, LeaseDb, LeaseEnv}
use server_cli.Lease.Store.{append_lease_event, revoke_token_and_leases, unrevoked_token}
use server_cli.Lease.Admin.{log_revoked, revoke_token_cascade}
use server_cli.Token.Permissions.{
  PermissionGrant, PermissionSet, legacy_grants, is_version_one, has_action, wildcard_in,
  is_canonical_wildcard, expand, authorizes,
}
use server_cli.Token.Service.{
  TokenExternal, token_by_hash, is_past, Resolved, valid_token, authorize, parse_permissions,
  permissions_of, principal_of, judge_token, resolve,
}

abbrev Member : String → List String → Type 0
Member a [] = ⊥
Member a (b ∷ bs) = (b ≡ a) ⊎ Member a bs

-- Is there a grant of the action on the resource?
abbrev pub Permits : List PermissionGrant → String → String → Type 0
Permits [] r a = ⊥
Permits (g ∷ gs) r a = ((g.resource ≡ r) × Member a g.actions) ⊎ Permits gs r a

has_action-Member : (a : String) (bs : List String) → has_action a bs ≡ true → Member a bs
unfolding has_action
has_action-Member a [] h = ground arith
has_action-Member a (b ∷ bs) h = elim (Bool-cases (str_eq b a)) [
  | inl same ↦ inl ((str_eq_iff b a).0 same)
  | inr other ↦ inr (has_action-Member a bs (ground (arith, other, h)))
]

authorizes-Permits :
    (gs : List PermissionGrant) (r a : String) → authorizes gs r a ≡ true → Permits gs r a
unfolding authorizes
authorizes-Permits [] r a h = ground arith
authorizes-Permits (g ∷ gs) r a h =
    elim (Bool-cases (str_eq g.resource r && has_action a g.actions)) [
      | inl here ↦ inl (
        (str_eq_iff g.resource r).0 (ground (arith, here)),
        has_action-Member a g.actions (ground (arith, here)),
      )
      | inr other ↦ inr (authorizes-Permits gs r a (ground (arith, other, h)))
    ]

module _ (ext : TokenExternal) where
  judge_token_valid :
      (now : ℕ) (s t : AccessToken) (p : Principal)
      → judge_token ext now s ≡ valid_token p t
      → (s ≡ t)
        × (is_some s.revoked_at ≡ false)
        × (is_past now s.expires_at ≡ false)
        × (principal_of ext s ≡ p)
  unfolding judge_token
  judge_token_valid now s t p h = ground arith

  -- What a resolved token's row must be.
  pub resolve_valid :
      (db : LeaseDb) (now : ℕ) (plaintext : String) (p : Principal) (t : AccessToken)
      → resolve ext db now plaintext ≡ valid_token p t
      → (token_by_hash db (ext.hash plaintext) ≡ some t)
        × (t.revoked_at ≡ none)
        × (is_past now t.expires_at ≡ false)
        × (principal_of ext t ≡ p)
  unfolding resolve
  resolve_valid db now plaintext p t h = elim (Bool-cases (starts_with plaintext "sct_")) [
    | inr e ↦ absurd (ground (arith, e, h))
    | inl e ↦ elim (Option-cases (token_by_hash db (ext.hash plaintext))) [
      | inl e' ↦ absurd (ground (arith, e, e', h))
      | inr (s, e') ↦
          let judged : judge_token ext now s ≡ valid_token p t =
            subst (λ (r : Resolved). r ≡ valid_token p t) (rw (e, e') refl) h in
          let (same, live, early, who) = judge_token_valid now s t p judged in
          (
            e' ∙ ap some same,
            subst (λ (x : AccessToken). x.revoked_at ≡ none) same (is_some-none s.revoked_at live),
            subst (λ (x : AccessToken). is_past now x.expires_at ≡ false) same early,
            subst (λ x. principal_of ext x ≡ p) same who,
          )
    ]
  ]

  -- What the stored text of a token grants: it decodes to a set of version 1, which has no wildcard
  -- and a grant of the action on the resource, or is the canonical wildcard, which stands for
  -- the old grants.
  pub record StoredGrant (t : AccessToken) (r a : String) : Type 0 where
    pub set : PermissionSet
    pub decoded : ext.unmarshal t.permissions_json ≡ some set
    pub version : is_version_one set.version ≡ true
    pub grant :
        ((wildcard_in set.grants ≡ false) × Permits set.grants r a)
        ⊎ ((is_canonical_wildcard set.grants ≡ true) × Permits legacy_grants r a)

  expand_wild :
      (p q : PermissionSet)
      → wildcard_in p.grants ≡ true
      → expand p ≡ some q
      → (is_version_one p.version ≡ true)
        × (is_canonical_wildcard p.grants ≡ true)
        × (legacy_grants ≡ q.grants)
  unfolding expand
  expand_wild p q wild h = ground (arith, wild, h)

  expand_plain :
      (p q : PermissionSet)
      → wildcard_in p.grants ≡ false
      → expand p ≡ some q
      → (is_version_one p.version ≡ true) × (p.grants ≡ q.grants)
  unfolding expand
  expand_plain p q plain h = ground (arith, plain, h)

  expanded :
      (t : AccessToken) (r a : String) (p q : PermissionSet)
      → ext.unmarshal t.permissions_json ≡ some p
      → expand p ≡ some q
      → authorizes q.grants r a ≡ true
      → StoredGrant t r a
  expanded t r a p q e h allowed = elim (Bool-cases (wildcard_in p.grants)) [
    | inl wild ↦
        let (one, canonical, same) = expand_wild p q wild h in
        record {
          set = p;
          decoded = e;
          version = one;
          grant = inr (
            canonical,
            authorizes-Permits legacy_grants r a
                (subst (λ gs. authorizes gs r a ≡ true) (sym same) allowed),
          );
        }
    | inr plain ↦
        let (one, same) = expand_plain p q plain h in
        record {
          set = p;
          decoded = e;
          version = one;
          grant = inl (
            plain,
            authorizes-Permits p.grants r a
                (subst (λ gs. authorizes gs r a ≡ true) (sym same) allowed),
          );
        }
  ]

  nothing_granted : (r a : String) → authorizes [] r a ≡ true → ⊥
  unfolding authorizes
  nothing_granted r a h = ground arith

  permissions_granted :
      (t : AccessToken) (r a : String)
      → authorizes (permissions_of ext t).grants r a ≡ true
      → StoredGrant t r a
  unfolding permissions_of parse_permissions
  permissions_granted t r a = elim (Bool-cases (str_eq (ext.trim_space t.permissions_json) "")) [
    | inl blank ↦ rw (blank, permissions_of) (λ h. absurd (nothing_granted r a h))
    | inr text ↦ elim (Option-cases (ext.unmarshal t.permissions_json)) [
      | inl e ↦ rw (text, e, permissions_of) (λ h. absurd (nothing_granted r a h))
      | inr (p, e) ↦ elim (Option-cases (expand p)) [
        | inl k ↦ rw (text, e, k, permissions_of) (λ h. absurd (nothing_granted r a h))
        | inr (q, k) ↦ rw (text, e, k, permissions_of) (λ h. expanded t r a p q e k h)
      ]
    ]
  ]

  -- What Authorize allows a resolved token was granted to it: the token's row has the hash, is neither
  -- revoked nor expired, and its stored text grants that very action on that resource.
  pub authorized_was_granted :
      (db : LeaseDb) (now : ℕ) (plaintext : String) (p : Principal) (t : AccessToken) (r a : String)
      → resolve ext db now plaintext ≡ valid_token p t
      → authorize p r a ≡ ok tt
      → (token_by_hash db (ext.hash plaintext) ≡ some t)
        × (t.revoked_at ≡ none)
        × (is_past now t.expires_at ≡ false)
        × StoredGrant t r a
  unfolding authorize
  authorized_was_granted db now plaintext p t r a h allowed =
      let (found, live, early, who) = resolve_valid db now plaintext p t h in
      let same : authorizes (permissions_of ext t).grants r a
          ≡ authorizes p.permissions.grants r a =
        ap (λ (x : Principal). authorizes x.permissions.grants r a) who in
      (found, live, early, permissions_granted t r a (same ∙ ground arith))

  log_revoked_tokens :
      (ls : List Lease) (db : LeaseDb) (env : LeaseEnv) (admin : String)
      → (log_revoked db env admin ls).tokens ≡ db.tokens
  unfolding log_revoked append_lease_event
  log_revoked_tokens [] db env admin = refl
  log_revoked_tokens (l ∷ ls) db env admin = log_revoked_tokens ls _ env admin

  -- A text that resolved to the token that RevokeTokenCascade revokes resolves to no valid token
  -- afterwards, at any time.
  pub revoked_token_refused :
      (db : LeaseDb) (env : LeaseEnv) (token admin reason : String) (now later : ℕ)
      (plaintext : String) (p p' : Principal) (t t' : AccessToken)
      → resolve ext db now plaintext ≡ valid_token p t
      → t.id ≡ token
      → resolve ext (revoke_token_cascade db env token admin reason).0 later plaintext
        ≢ valid_token p' t'
  unfolding revoke_token_cascade revoke_token_and_leases token_by_hash
  revoked_token_refused db env token admin reason now later plaintext p p' t t' h same h' =
      let (found, live, early, who) = resolve_valid db now plaintext p t h in
      let (found', live', early', who') = resolve_valid _ later plaintext p' t' h' in
      let revoke : AccessToken → AccessToken =
        λ t. record t { revoked_at = some env.now; revoked_by = admin } in
      let rows = update_rows (unrevoked_token token) revoke db.tokens in
      let after : find_row (λ (t : AccessToken). str_eq t.token_hash (ext.hash plaintext)) rows
          ≡ some t' =
        subst
          (λ ts.
            find_row (λ (t : AccessToken). str_eq t.token_hash (ext.hash plaintext)) ts ≡ some t')
          (log_revoked_tokens _ _ env admin) found' in
      let hit : unrevoked_token token t ≡ true = rw (same, live, str_eq_refl token) refl in
      let revoked : revoke t ≡ t' = some_inj (
        sym (
          find_row-update_rows (λ (t : AccessToken). str_eq t.token_hash (ext.hash plaintext))
            (unrevoked_token token) revoke db.tokens (λ x. refl)
          ∙ rw (found, Option.map, hit) refl)
        ∙ after) in
      none_not_some (sym live' ∙ ap (λ (x : AccessToken). x.revoked_at) (sym revoked))
