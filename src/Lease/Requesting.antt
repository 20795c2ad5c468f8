-- ===== src/Lease/Requesting.antt =====
-- CreateLeaseRequest, branch by branch.
use server_cli.Common.{
  ℕ, ◌++◌, str_eq, str_eq_iff, Result-cases, true, false, ◌≡◌, inl, inr, none, some, [], ◌∷◌, ◌||◌,
  is_some, is_some-none, Bool-cases, Option-cases, if_cases, arith, Error, Result, ok, err,
  constraint, bad_request, disabled, not_found,
}
use server_cli.Lease.Model.{active, Lease, LeaseDb, LeaseEnv, LeaseRequest, Principal}
use server_cli.Lease.Store.{
  lease_by_id, lease_by_request_id, insert_lease, insert_request, request_by_id,
  request_by_idempotency, append_lease_event,
}
use server_cli.Lease.Requests.{
  LeaseRequestInput, LeaseRequestResult, LeaseExternal, SelectedNode, new_lease, issue_lease,
  approve_request, create_new_request, create_lease_request, result_for_request, new_request,
  is_well_formed, requests_closed,
}
use server_cli.Lease.Moves.{LeasesGrow, LeasesGrow-refl, append_lease-Grows}

-- What an INSERT into the lease table that succeeds does.
insert_lease-some :
    (db db' : LeaseDb) (now : ℕ) (l : Lease)
    → insert_lease db now l ≡ some db'
    → (lease_by_id db l.id ≡ none)
      × (db'
          ≡ record db { leases = db.leases ++ record l { status = active; issued_at = now } ∷ [] })
unfolding insert_lease
insert_lease-some db db' now l h =
    elim (Bool-cases
      (is_some (lease_by_id db l.id) || is_some (lease_by_request_id db l.request_id))) [
        | inl e ↦ ground (arith, e, h)
        | inr e ↦ (is_some-none _ (ground (arith, e)), ground (arith, e, h))
      ]

-- issueLease fails on a taken identifier, or stores the lease.
pub issue_lease_cases {ℓ} :
    (P : LeaseDb × Result LeaseRequestResult → Type ℓ) (db : LeaseDb) (env : LeaseEnv)
    (r : LeaseRequest) (p : Principal)
    → P (db, err constraint)
    → (let l = new_lease env r p.expires_at in
        lease_by_id db l.id ≡ none
        → P (
          append_lease_event
              (record db { leases = db.leases ++ l ∷ [] })
              env.now
              l.id
              "issued"
              "ai"
              r.ai_agent_id,
          ok (record { lease_request = r; lease = some l; replayed = false }),
        ))
    → P (issue_lease db env r p)
unfolding issue_lease
issue_lease_cases P db env r p refuse accept =
    let l = new_lease env r p.expires_at in
    elim (Option-cases (insert_lease db env.now l)) [
      | inl e ↦ rw (e, issue_lease) refuse
      | inr (db', e) ↦
          let (new, same) = insert_lease-some db db' env.now l e in
          rw (e, issue_lease) (rw same (accept new))
    ]

insert_request-some :
    (db db' : LeaseDb) (r : LeaseRequest)
    → insert_request db r ≡ some db'
    → (request_by_idempotency db r.environment_id r.client_request_id ≡ none)
      × (db' ≡ record db { requests = db.requests ++ r ∷ [] })
unfolding insert_request
insert_request-some db db' r h =
    elim (Bool-cases (
      is_some (request_by_id db r.id)
      || is_some (request_by_idempotency db r.environment_id r.client_request_id))) [
        | inl e ↦ ground (arith, e, h)
        | inr e ↦ (is_some-none _ (ground (arith, e)), ground (arith, e, h))
      ]

-- The database in which a request and its lease stand.
abbrev pub leased : LeaseDb → LeaseEnv → LeaseRequest → Lease → LeaseDb
leased db env r l =
    append_lease_event
      (record db { requests = db.requests ++ r ∷ []; leases = db.leases ++ l ∷ [] }) env.now l.id
      "issued" "ai" r.ai_agent_id

-- A new request is refused on a taken key, or stored; then its lease is refused on a taken
-- identifier, or stored.
pub approve_request_cases {ℓ} :
    (P : LeaseDb × Result LeaseRequestResult → Type ℓ) (db : LeaseDb) (env : LeaseEnv)
    (r : LeaseRequest) (p : Principal)
    → P (db, err constraint)
    → P (record db { requests = db.requests ++ r ∷ [] }, err constraint)
    → (let l = new_lease env r p.expires_at in
        request_by_idempotency db r.environment_id r.client_request_id ≡ none
        → lease_by_id db l.id ≡ none
        → P (
          leased db env r l,
          ok (record { lease_request = r; lease = some l; replayed = false }),
        ))
    → P (approve_request db env r p)
unfolding approve_request lease_by_id
approve_request_cases P db env r p refuse lose accept = elim (Option-cases (insert_request db r)) [
  | inl e ↦ rw (e, approve_request) refuse
  | inr (db', e) ↦
      let (free, same) = insert_request-some db db' r e in
      rw (e, approve_request) (rw same (issue_lease_cases P _ env r p lose (accept free)))
]

module _ (ext : LeaseExternal) where
  -- What CreateLeaseRequest requires of a request that it has not answered before.
  pub record Grants (db : LeaseDb) (env : LeaseEnv) (inp : LeaseRequestInput) (node : SelectedNode)
      : Type 0 where
    pub gate : requests_closed env ≡ false
    pub well_formed : is_well_formed inp ≡ true
    pub resolved : ext.resolve_node_selector inp.node_selector ≡ ok node
    pub enabled : node.enabled ≡ true

  -- A new request fails unless it is well formed and its node is found and enabled.
  pub create_new_request_cases {ℓ} :
      (P : LeaseDb × Result LeaseRequestResult → Type ℓ) (db : LeaseDb) (env : LeaseEnv)
      (inp : LeaseRequestInput) (p : Principal)
      → ((e : Error) → P (db, err e))
      → ((node : SelectedNode)
          → is_well_formed inp ≡ true
          → ext.resolve_node_selector inp.node_selector ≡ ok node
          → node.enabled ≡ true
          → P (approve_request db env (new_request ext env inp p node) p))
      → P (create_new_request ext db env inp p)
  unfolding create_new_request
  create_new_request_cases P db env inp p refuse accept =
      if_cases P (is_well_formed inp)
        (λ good. elim (Result-cases (ext.resolve_node_selector inp.node_selector)) [
          | inl (e, h) ↦ rw h (refuse e)
          | inr (node, h) ↦
              rw h (if_cases P node.enabled (accept node good h) (λ off. refuse disabled))
        ])
        (λ bad. refuse bad_request)

  -- CreateLeaseRequest changes nothing and fails; or answers a request of the same token again;
  -- or fails on a taken key, at the latest after the request was stored; or stores both.
  pub create_lease_request_cases {ℓ} :
      (P : LeaseDb × Result LeaseRequestResult → Type ℓ) (db : LeaseDb) (env : LeaseEnv)
      (inp : LeaseRequestInput) (p : Principal)
      → ((e : Error) → P (db, err e))
      → ((r : LeaseRequest)
          → request_by_idempotency db env.environment_id inp.client_request_id ≡ some r
          → r.access_token_id ≡ p.token_id
          → P (db, ok (result_for_request db r)))
      → ((r : LeaseRequest) → P (record db { requests = db.requests ++ r ∷ [] }, err constraint))
      → ((node : SelectedNode)
          → Grants db env inp node
          → let r = new_request ext env inp p node in
            let l = new_lease env r p.expires_at in
            request_by_idempotency db env.environment_id inp.client_request_id ≡ none
            → lease_by_id db l.id ≡ none
            → P (
              leased db env r l,
              ok (record { lease_request = r; lease = some l; replayed = false }),
            ))
      → P (create_lease_request ext db env inp p)
  unfolding create_lease_request
  create_lease_request_cases P db env inp p refuse repeat lose accept =
      if_cases P (requests_closed env) (λ closed. refuse disabled)
        (λ gate.
          let fresh : P (create_new_request ext db env inp p) =
            create_new_request_cases P db env inp p refuse (λ node good found enabled.
              approve_request_cases P db env (new_request ext env inp p node) p (refuse constraint)
                (lose _)
                (accept node (record {
                  gate = gate;
                  well_formed = good;
                  resolved = found;
                  enabled = enabled;
                }))) in
          if_cases P (str_eq inp.client_request_id "") (λ h. fresh)
            (λ h.
              elim (Option-cases
                (request_by_idempotency db env.environment_id inp.client_request_id)) [
                  | inl e ↦ rw e fresh
                  | inr (r, e) ↦ rw e (
                      if_cases P (str_eq r.access_token_id p.token_id)
                        (λ own. repeat r e ((str_eq_iff r.access_token_id p.token_id).0 own))
                        (λ other. refuse not_found))
                ]))

  pub create_lease_request-Grows :
      (db : LeaseDb) (env : LeaseEnv) (inp : LeaseRequestInput) (p : Principal)
      → LeasesGrow db.leases (create_lease_request ext db env inp p).0.leases
  unfolding append_lease_event lease_by_id
  create_lease_request-Grows db env inp p =
      create_lease_request_cases (λ r. LeasesGrow db.leases r.0.leases) db env inp p
        (λ e. LeasesGrow-refl db.leases) (λ r e own. LeasesGrow-refl db.leases)
        (λ r. LeasesGrow-refl db.leases)
        (λ node grants free new. append_lease-Grows db.leases _ new)
