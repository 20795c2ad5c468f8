-- ===== src/Token/Granting.antt =====
-- UpdatePermissions of backend/internal/service/apitoken.go: what it stores is what a later
-- Resolve reads, and no revision is replaced twice.
mod Plain
pub use Plain.*
use text.Mathlib.Text.{starts_with}
use mathlib.Core.Option
use server_cli.Common.{
  ℕ, ◌+◌, String, str_eq, str_eq_iff, Bool, true, false, not, ◌||◌, Bool-cases, ◌≡◌, refl, sym, ap,
  subst, ◌∙◌, inl, inr, none, some, Option-cases, some_inj, List, [], ◌∷◌, find_row, find_row_holds,
  find_row-update_rows, is_some, update_rows, keyed, Unique, Unique-update_rows, found_by_key,
  arith, conflict, not_found, bad_request, Error, Result, ok, err, ok_inj, Result-cases, >>=-eq-ok,
  guard-eq-ok, or_fail,
}
use server_cli.Lease.Model.{AccessToken, Principal, LeaseDb}
use server_cli.Token.Permissions.{
  PermissionGrant, PermissionSet, is_version_one, has_action, wildcard_in, expand, has_star,
  is_wild, is_none, has_pair, catalog, validate_actions, validate_grants, validate_permission_set,
}
use server_cli.Token.Service.{
  TokenExternal, token_key, token_by_id, token_by_hash, is_past, at_revision, with_permissions,
  update_token_permissions, valid_token, parse_permissions, permissions_of, principal_of,
  judge_token, resolve, store_permissions, update_found, update_permissions,
}

module _ (ext : TokenExternal) where
  -- What UpdatePermissions found and left when it succeeds.
  record Updated (db db' : LeaseDb) (now : ℕ) (id : String) (rev : ℕ) (perms : PermissionSet)
      (t : AccessToken) : Type 0 where
    found : token_by_id db id ≡ some t
    live : is_some t.revoked_at ≡ false
    valid : validate_permission_set perms ≡ ok tt
    revision : t.permission_version ≡ rev
    hit : at_revision now id rev t ≡ true
    rows :
        db'.tokens
        ≡ update_rows (at_revision now id rev) (with_permissions (ext.marshal perms)) db.tokens

  no_error :
      {db db' : LeaseDb} {e : Error} {t : AccessToken}
      → ◌≡◌ {A = LeaseDb × Result AccessToken} (db, err e) (db', ok t)
      → ⊥
  no_error h = ground arith

  store_permissions_lem :
      (db db' : LeaseDb) (now : ℕ) (id : String) (rev : ℕ) (perms : PermissionSet)
      (t t' : AccessToken)
      → Unique token_key db.tokens
      → token_by_id db id ≡ some t
      → store_permissions ext db now id rev perms ≡ (db', ok t')
      → (at_revision now id rev t ≡ true)
        × (t.permission_version ≡ rev)
        × (db'.tokens
            ≡ update_rows (at_revision now id rev) (with_permissions (ext.marshal perms)) db.tokens)
        × (with_permissions (ext.marshal perms) t ≡ t')
  unfolding store_permissions update_token_permissions token_by_id
  store_permissions_lem db db' now id rev perms t t' d there =
      elim (Option-cases (find_row (at_revision now id rev) db.tokens)) [
        | inl e ↦ rw (e, store_permissions) (λ h. absurd (no_error h))
        | inr (x, e) ↦
            let write = with_permissions (ext.marshal perms) in
            let (found, revision) = revision_row db.tokens now id rev x d e in
            let same : x ≡ t = some_inj (sym found ∙ there) in
            let holds : at_revision now id rev t ≡ true =
              subst (λ r. at_revision now id rev r ≡ true) same
                (find_row_holds (at_revision now id rev) db.tokens x e) in
            let after : find_row (keyed token_key id)
                  (update_rows (at_revision now id rev) write db.tokens)
                ≡ some (write t) =
              find_row-update_rows (keyed token_key id) (at_revision now id rev) write db.tokens
                (λ y. refl)
              ∙ rw (there, Option.map, holds) refl in
            rw (e, store_permissions, after, or_fail)
              (λ h. (
                holds,
                subst (λ r. r.permission_version ≡ rev) same revision,
                sym (ap (λ (m : LeaseDb × Result AccessToken). m.0.tokens) h),
                ok_inj (ap (λ (m : LeaseDb × Result AccessToken). m.1) h),
              ))
      ]

  update_permissions_lem :
      (db db' : LeaseDb) (now : ℕ) (id : String) (rev : ℕ) (perms : PermissionSet)
      (t' : AccessToken)
      → Unique token_key db.tokens
      → update_permissions ext db now id rev perms ≡ (db', ok t')
      → (t : AccessToken) × Updated db db' now id rev perms t
        × (with_permissions (ext.marshal perms) t ≡ t')
  unfolding update_permissions update_found
  update_permissions_lem db db' now id rev perms t' d = elim (Option-cases (token_by_id db id)) [
    | inl e ↦ rw (e, update_permissions) (λ h. absurd (no_error h))
    | inr (t, e) ↦ elim (Bool-cases (is_some t.revoked_at || is_past now t.expires_at)) [
      | inl over ↦ rw (e, over, update_permissions, update_found) (λ h. absurd (no_error h))
      | inr fine ↦ elim (Result-cases (validate_permission_set perms)) [
        | inl (bad, k) ↦
            rw (e, fine, k, update_permissions, update_found) (λ h. absurd (no_error h))
        | inr (tt, k) ↦
            rw (e, fine, k, update_permissions, update_found)
              (λ h.
                let (holds, revision, rows, same) =
                  store_permissions_lem db db' now id rev perms t t' d e h in
                (
                  t,
                  record {
                    found = e;
                    live = ground (arith, fine);
                    valid = k;
                    revision = revision;
                    hit = holds;
                    rows = rows;
                  },
                  same,
                ))
      ]
    ]
  ]

  reads_back :
      (t : AccessToken) (perms : PermissionSet)
      → validate_permission_set perms ≡ ok tt
      → ext.unmarshal (ext.marshal perms) ≡ some perms
      → str_eq (ext.trim_space (ext.marshal perms)) "" ≡ false
      → permissions_of ext (with_permissions (ext.marshal perms) t) ≡ perms
  unfolding permissions_of parse_permissions
  reads_back t perms valid decodes text =
      rw (text, decodes, validated_expand perms valid, permissions_of) refl

  -- The permissions that UpdatePermissions stores are those that a later Resolve of the token's text
  -- yields, until the token expires, where no two tokens share an identifier, and the stored text is
  -- not blank and decodes to what was encoded. The revision is the one after the expected one.
  pub update_takes_effect :
      (db db' : LeaseDb) (now : ℕ) (id : String) (rev : ℕ) (perms : PermissionSet)
      (t' : AccessToken) (later : ℕ) (plaintext : String)
      → Unique token_key db.tokens
      → update_permissions ext db now id rev perms ≡ (db', ok t')
      → ext.unmarshal (ext.marshal perms) ≡ some perms
      → str_eq (ext.trim_space (ext.marshal perms)) "" ≡ false
      → starts_with plaintext "sct_" ≡ true
      → token_by_hash db (ext.hash plaintext) ≡ token_by_id db id
      → is_past later t'.expires_at ≡ false
      → (p : Principal) × (resolve ext db' later plaintext ≡ valid_token p t')
        × (p.permissions ≡ perms)
        × (t'.permission_version ≡ rev + 1)
  unfolding resolve judge_token token_by_hash
  update_takes_effect db db' now id rev perms t' later plaintext d h decodes text prefix owned
        early =
      let (t, u, same) = update_permissions_lem db db' now id rev perms t' d h in
      let write = with_permissions (ext.marshal perms) in
      let by_hash : AccessToken → Bool = λ t. str_eq t.token_hash (ext.hash plaintext) in
      let after : find_row by_hash db'.tokens ≡ some t' =
        ap (find_row by_hash) u.rows
        ∙ find_row-update_rows by_hash (at_revision now id rev) write db.tokens (λ y. refl)
        ∙ rw (owned ∙ u.found, Option.map, u.hit, same) refl in
      let live : is_some t'.revoked_at ≡ false =
        subst (λ (x : AccessToken). is_some x.revoked_at ≡ false) same u.live in
      (
        principal_of ext t',
        rw (prefix, after, live, early, resolve) refl,
        subst (λ x. permissions_of ext x ≡ perms) same (reads_back t perms u.valid decodes text),
        subst (λ (x : AccessToken). x.permission_version ≡ rev + 1) same
            (ap (λ n. n + 1) u.revision),
      )

  unmatched_update :
      (db : LeaseDb) (now : ℕ) (id : String) (rev : ℕ) (perms : PermissionSet)
      → find_row (at_revision now id rev) db.tokens ≡ none
      → ((update_permissions ext db now id rev perms).0.tokens ≡ db.tokens)
        × (e : Error) × ((update_permissions ext db now id rev perms).1 ≡ err e)
  unfolding update_permissions update_found store_permissions update_token_permissions
  unmatched_update db now id rev perms h = elim (Option-cases (token_by_id db id)) [
    | inl e ↦ rw (e, update_permissions) (refl, not_found, refl)
    | inr (t, e) ↦ elim (Bool-cases (is_some t.revoked_at || is_past now t.expires_at)) [
      | inl over ↦ rw (e, over, update_permissions, update_found) (refl, conflict, refl)
      | inr fine ↦ elim (Result-cases (validate_permission_set perms)) [
        | inl (bad, k) ↦ rw (e, fine, k, update_permissions, update_found) (refl, bad, refl)
        | inr (done, k) ↦
            rw (e, fine, k, h, update_permissions, update_found, store_permissions)
              (
                update_rows-none (at_revision now id rev) (with_permissions (ext.marshal perms))
                    db.tokens h,
                conflict,
                refl,
              )
      ]
    ]
  ]

  -- A revision is replaced at most once: after an update that expected it, another that expects it
  -- too fails, at any time and whatever it asks for, and leaves the tokens as they are, where no two
  -- tokens share an identifier.
  pub stale_revision_refused :
      (db db' : LeaseDb) (now : ℕ) (id : String) (rev : ℕ) (perms : PermissionSet)
      (t' : AccessToken) (later : ℕ) (other : PermissionSet)
      → Unique token_key db.tokens
      → update_permissions ext db now id rev perms ≡ (db', ok t')
      → ((update_permissions ext db' later id rev other).0.tokens ≡ db'.tokens)
        × (e : Error) × ((update_permissions ext db' later id rev other).1 ≡ err e)
  unfolding token_by_id
  stale_revision_refused db db' now id rev perms t' later other d h =
      let (t, u, same) = update_permissions_lem db db' now id rev perms t' d h in
      let write = with_permissions (ext.marshal perms) in
      let unique : Unique token_key db'.tokens =
        rw u.rows
          (Unique-update_rows token_key (at_revision now id rev) write db.tokens (λ y. refl) d) in
      let after : find_row (keyed token_key id) db'.tokens ≡ some (write t) =
        ap (find_row (keyed token_key id)) u.rows
        ∙ find_row-update_rows (keyed token_key id) (at_revision now id rev) write db.tokens
            (λ y. refl)
        ∙ rw (u.found, Option.map, u.hit) refl in
      unmatched_update db' later id rev other
        (elim (Option-cases (find_row (at_revision later id rev) db'.tokens)) [
          | inl e ↦ e
          | inr (x, e) ↦
              let (found, revision) = revision_row db'.tokens later id rev x unique e in
              let again : t.permission_version + 1 ≡ x.permission_version =
                ap (λ (y : AccessToken). y.permission_version) (some_inj (sym after ∙ found)) in
              absurd (ground (arith, again, revision, u.revision))
        ])
