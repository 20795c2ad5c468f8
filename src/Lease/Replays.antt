-- ===== src/Lease/Replays.antt =====
-- How CreateLeaseRequest answers a client id again.
use server_cli.Common.{
  str_eq, str_eq_iff, false, ◌≡◌, ◌≢◌, refl, sym, subst, ◌∙◌, inl, inr, none, some, if_cases, arith,
  Result, ok, err, not_found,
}
use server_cli.Lease.Model.{LeaseDb, LeaseEnv, LeaseRequest, Principal}
use server_cli.Lease.Store.{request_by_idempotency}
use server_cli.Lease.Requests.{
  LeaseRequestInput, LeaseRequestResult, LeaseExternal, requests_closed, replay, result_for_request,
  create_lease_request, new_request,
}
use server_cli.Lease.Requesting.{create_new_request_cases, approve_request_cases}
use server_cli.Lease.Issue.{HasLifetime, lease_outcome}

replay_own :
    (db : LeaseDb) (r : LeaseRequest) (p : Principal)
    → r.access_token_id ≡ p.token_id
    → replay db r p ≡ (db, ok (result_for_request db r))
replay_own db r p own = rw ((str_eq_iff r.access_token_id p.token_id).1 own) refl

replay_other :
    (db : LeaseDb) (r : LeaseRequest) (p : Principal)
    → r.access_token_id ≢ p.token_id
    → replay db r p ≡ (db, err not_found)
replay_other db r p other =
    if_cases (λ (x : LeaseDb × Result LeaseRequestResult). x ≡ (db, err not_found))
      (str_eq r.access_token_id p.token_id)
      (λ e. absurd (other ((str_eq_iff r.access_token_id p.token_id).0 e))) (λ e. refl)

module _ (ext : LeaseExternal) where
  replayed_request :
      (db : LeaseDb) (env : LeaseEnv) (inp : LeaseRequestInput) (p : Principal) (r : LeaseRequest)
      → requests_closed env ≡ false
      → str_eq inp.client_request_id "" ≡ false
      → request_by_idempotency db env.environment_id inp.client_request_id ≡ some r
      → create_lease_request ext db env inp p ≡ replay db r p
  unfolding create_lease_request
  replayed_request db env inp p r gate named e =
      rw (gate, create_lease_request) (rw (named, e) refl)

  -- A request that succeeded stands under its client id, as its token's.
  answered_stands :
      (db : LeaseDb) (env : LeaseEnv) (inp : LeaseRequestInput) (p : Principal)
      (res : LeaseRequestResult)
      → HasLifetime env
      → (create_lease_request ext db env inp p).1 ≡ ok res
      → (request_by_idempotency
            (create_lease_request ext db env inp p).0
            env.environment_id
            inp.client_request_id
          ≡ some res.lease_request)
        × (res.lease_request.access_token_id ≡ p.token_id)
  answered_stands db env inp p res life h = elim (lease_outcome ext db env inp p life res h) [
    | inl (again, same, own, e) ↦ (rw same e, own)
    | inr (l, e, fresh, g) ↦ (g.request_stored, g.request_own)
  ]

  -- Once a request under a client id that is not empty has succeeded, where the lifetime that the
  -- settings give is positive and at most 2562047 hours, each further one under that id in the same
  -- environment, while new requests are allowed, changes nothing: with the same token it gets the first request again,
  -- marked as a replay, and with another token it gets nothing but "not found".
  pub lease_request_idempotent :
      (db : LeaseDb) (env env' : LeaseEnv) (inp inp' : LeaseRequestInput) (p p' : Principal)
      (res : LeaseRequestResult)
      → HasLifetime env
      → (create_lease_request ext db env inp p).1 ≡ ok res
      → str_eq inp.client_request_id "" ≡ false
      → inp'.client_request_id ≡ inp.client_request_id
      → env'.environment_id ≡ env.environment_id
      → requests_closed env' ≡ false
      → let db' = (create_lease_request ext db env inp p).0 in
        (p'.token_id ≡ p.token_id
          → create_lease_request ext db' env' inp' p'
            ≡ (db', ok (result_for_request db' res.lease_request)))
        × (p'.token_id ≢ p.token_id
            → create_lease_request ext db' env' inp' p' ≡ (db', err not_found))
  lease_request_idempotent db env env' inp inp' p p' res life h named same_id same_env gate =
      let db' = (create_lease_request ext db env inp p).0 in
      let (stands, own) = answered_stands db env inp p res life h in
      let answer =
        replayed_request db' env' inp' p' res.lease_request gate
          (subst (λ c. str_eq c "" ≡ false) (sym same_id) named) (rw (same_env, same_id) stands) in
      (
        λ mine. answer ∙ replay_own db' res.lease_request p' (own ∙ sym mine),
        λ other. answer ∙ replay_other db' res.lease_request p' (λ e. other (sym e ∙ own)),
      )

  -- Requests without a client id share the empty one: once one of them is stored, every other
  -- fails.
  pub unnamed_requests_collide :
      (db : LeaseDb) (env : LeaseEnv) (inp : LeaseRequestInput) (p : Principal) (r : LeaseRequest)
      (res : LeaseRequestResult)
      → inp.client_request_id ≡ ""
      → request_by_idempotency db env.environment_id "" ≡ some r
      → (create_lease_request ext db env inp p).1 ≢ ok res
  unfolding create_lease_request
  unnamed_requests_collide db env inp p r res unnamed taken =
      if_cases P (requests_closed env) (λ closed h. ground (arith, h))
        (λ gate.
          if_cases P (str_eq inp.client_request_id "")
            (λ empty.
              create_new_request_cases ext P db env inp p (λ e h. ground (arith, h))
                (λ node good found enabled.
                  approve_request_cases P db env (new_request ext env inp p node) p
                    (λ h. ground (arith, h)) (λ h. ground (arith, h)) (λ free new h. clash free)))
            (λ other.
              absurd (ground (arith, (str_eq_iff inp.client_request_id "").1 unnamed, other))))
    where
      P : LeaseDb × Result LeaseRequestResult → Type 0
      P a = a.1 ≢ ok res

      clash : request_by_idempotency db env.environment_id inp.client_request_id ≡ none → ⊥
      clash free =
          let at_empty : request_by_idempotency db env.environment_id "" ≡ none =
            subst (λ c. request_by_idempotency db env.environment_id c ≡ none) unnamed free in
          ground (arith, at_empty, taken)
