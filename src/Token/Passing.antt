-- ===== src/Token/Passing.antt =====
-- Which requests tokenAuth of backend/internal/api/middleware_tokens.go lets through.
use server_cli.Common.{
  ℕ, String, str_eq, true, false, Bool-cases, ◌≡◌, refl, sym, ap, subst, ◌∙◌, ◌⊎◌, inl, inr, none,
  some, [], ◌∷◌, ◌++◌, Error, ok, err, Result-cases,
}
use server_cli.Lease.Model.{AccessToken, Principal}
use server_cli.Token.Service.{
  TokenExternal, token_by_hash, is_past, Resolved, unknown_token, revoked_token, expired_token,
  valid_token, authorize, resolve,
}
use server_cli.Token.Resolving.{StoredGrant, authorized_was_granted}
use server_cli.Token.Gate.{
  GateDb, Usage, Denial, record_denied, lacking_text, Handler, Answer, unauthenticated,
  lacks_permission, record_token_usage, usage_of, denied, in_force, log_served, admit, token_auth,
}

module _ (ext : TokenExternal) (db : GateDb) (now : ℕ) (plaintext r a : String) where
  -- The request has a token in force that grants the action, and the handler has run, whose outcome
  -- is logged as the only new use.
  pub record Passed (handler : Handler) : Type 0 where
    pub token : AccessToken
    pub principal : Principal
    pub row : token_by_hash db.leases (ext.hash plaintext) ≡ some token
    pub live : token.revoked_at ≡ none
    pub early : is_past now token.expires_at ≡ false
    pub grant : StoredGrant ext token r a
    pub result :
        token_auth ext db now plaintext r a handler
        ≡ log_served db token r a (handler db.leases principal)

  abbrev pub Logged : GateDb → Type 0
  Logged db' = (db'.usage ≡ db.usage) ⊎ ((u : Usage) × (db'.usage ≡ db.usage ++ u ∷ []))

  abbrev pub Audited : GateDb → Type 0
  Audited db' = (e : Denial) × (db'.audit ≡ db.audit ++ e ∷ [])

  -- No handler has run: the answer is the same whatever the handler, the tables of leases and
  -- tokens stand, at most one use is logged, and one denial is audited.
  pub record Refused (handler : Handler) : Type 0 where
    pub blind :
        (other : Handler)
        → token_auth ext db now plaintext r a other ≡ token_auth ext db now plaintext r a handler
    pub kept : (token_auth ext db now plaintext r a handler).0.leases ≡ db.leases
    pub logged : Logged (token_auth ext db now plaintext r a handler).0
    pub audited : Audited (token_auth ext db now plaintext r a handler).0

  constant-Refused :
      (m : GateDb × Answer)
      → ((handler : Handler) → token_auth ext db now plaintext r a handler ≡ m)
      → m.0.leases ≡ db.leases
      → Logged m.0
      → Audited m.0
      → (handler : Handler) → Refused handler
  constant-Refused m same kept logged audited handler = record {
    blind = λ other. same other ∙ sym (same handler);
    kept = ap (λ (n : GateDb × Answer). n.0.leases) (same handler) ∙ kept;
    logged = subst (λ (n : GateDb × Answer). Logged n.0) (sym (same handler)) logged;
    audited = subst (λ (n : GateDb × Answer). Audited n.0) (sym (same handler)) audited;
  }

  resolved :
      (m : Resolved) (handler : Handler)
      → str_eq plaintext "" ≡ false
      → resolve ext db.leases now plaintext ≡ m
      → token_auth ext db now plaintext r a handler ≡ admit db r a handler m
  unfolding token_auth
  resolved m handler given e = rw (given, e, token_auth) refl

  authorized :
      (p : Principal) (t : AccessToken) (handler : Handler)
      → authorize p r a ≡ ok tt
      → admit db r a handler (valid_token p t) ≡ log_served db t r a (handler db.leases p)
  unfolding admit
  authorized p t handler e = rw (e, admit) refl

  lacking :
      (p : Principal) (t : AccessToken) (handler : Handler) (e : Error)
      → authorize p r a ≡ err e
      → admit db r a handler (valid_token p t) ≡ (
        record_denied
            (record_token_usage db (usage_of t r a 403 denied in_force))
            p.name
            "api_token.denied"
            (lacking_text r a),
        lacks_permission,
      )
  unfolding admit
  lacking p t handler e h = rw (h, admit) refl

  judged :
      (m : Resolved) (handler : Handler)
      → str_eq plaintext "" ≡ false
      → resolve ext db.leases now plaintext ≡ m
      → Passed handler ⊎ Refused handler
  unfolding admit record_token_usage record_denied
  judged unknown_token handler given e =
      inr (constant-Refused _ (λ h. resolved _ h given e) refl (inl refl) (_, refl) handler)
  judged (revoked_token t) handler given e =
      inr (constant-Refused _ (λ h. resolved _ h given e) refl (inr (_, refl)) (_, refl) handler)
  judged (expired_token t) handler given e =
      inr (constant-Refused _ (λ h. resolved _ h given e) refl (inr (_, refl)) (_, refl) handler)
  judged (valid_token p t) handler given e = elim (Result-cases (authorize p r a)) [
    | inl (bad, k) ↦ inr (
        constant-Refused _ (λ h. resolved _ h given e ∙ lacking p t h bad k) refl (inr (_, refl))
          (_, refl) handler)
    | inr (tt, k) ↦
        let (row, live, early, grant) =
          authorized_was_granted ext db.leases now plaintext p t r a e k in
        inl (record {
          token = t;
          principal = p;
          row = row;
          live = live;
          early = early;
          grant = grant;
          result = resolved _ handler given e ∙ authorized p t handler k;
        })
  ]

  unnamed :
      (handler : Handler)
      → str_eq plaintext "" ≡ true
      → token_auth ext db now plaintext r a handler
        ≡ (record_denied db "" "api_token.auth" "access token required", unauthenticated)
  unfolding token_auth
  unnamed handler e = rw (e, token_auth) refl

  -- A request with an access token either reaches its handler, and then the token's row is in force
  -- and its stored text grants the action on the resource, or it is refused before, whatever the
  -- handler: the tables of leases and tokens stay as they are, at most one use is logged, and the
  -- refusal is audited with one row.
  pub token_auth_cases : (handler : Handler) → Passed handler ⊎ Refused handler
  unfolding record_denied
  token_auth_cases handler = elim (Bool-cases (str_eq plaintext "")) [
    | inl none_given ↦
        inr (constant-Refused _ (λ h. unnamed h none_given) refl (inl refl) (_, refl) handler)
    | inr given ↦ judged (resolve ext db.leases now plaintext) handler given refl
  ]
