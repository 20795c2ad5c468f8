-- ===== src/Lease/Issue.antt =====
-- What CreateLeaseRequest grants, and how it answers a request again.
use server_cli.Common.{
  ℕ, ◌+◌, ◌*◌, ◌≤◌, ◌<◌, ℤ, pos, hours_in_range, str_eq_refl, find_row-append_new, true, false, ◌≡◌,
  refl, subst, ◌⊎◌, inl, inr, Option, none, some, arith, ok_inj, some_inj, Result, ok,
}
use server_cli.Lease.Model.{is_active, Lease, LeaseDb, LeaseEnv, LeaseRequest, Principal}
use server_cli.Lease.Store.{append_lease_event, lease_by_id, request_by_idempotency}
use server_cli.Lease.Requests.{
  LeaseRequestInput, LeaseRequestResult, LeaseExternal, SelectedNode, lifetime_hours,
  absolute_expiry, first_expiry, new_lease, result_for_request, new_request, create_lease_request,
}
use server_cli.Lease.Requesting.{Grants, leased, create_lease_request_cases}

-- A lifetime that a duration can hold, and that is not nothing.
abbrev pub HasLifetime : LeaseEnv → Type 0
HasLifetime env = (n : ℕ) × (lifetime_hours env ≡ pos n) × (0 < n) × (n ≤ 2_562_047)

absolute_expiry_eq :
    (env : LeaseEnv) (n : ℕ)
    → lifetime_hours env ≡ pos n
    → n ≤ 2_562_047
    → absolute_expiry env ≡ env.now + 3_600_000_000_000 * n
unfolding absolute_expiry
absolute_expiry_eq env n e small = rw (e, hours_in_range n small) (omega arith)

-- The bounds of the expiry of a lease that is issued now.
pub record Bounds (env : LeaseEnv) (token : Option ℕ) (expires absolute : ℕ) : Type 0 where
  pub not_past : env.now ≤ expires
  pub capped : expires ≤ absolute
  pub within_token : (u : ℕ) → token ≡ some u → env.now ≤ u → expires ≤ u

first_expiry-Bounds :
    (env : LeaseEnv) (duration : ℤ) (token : Option ℕ)
    → env.now ≤ absolute_expiry env
    → Bounds env token (first_expiry env duration token) (absolute_expiry env)
unfolding first_expiry
first_expiry-Bounds env duration none later = record {
  not_past = ground arith;
  capped = ground (arith, later);
  within_token = λ u e h. ground (arith, e);
}
first_expiry-Bounds env duration (some v) later = record {
  not_past = ground arith;
  capped = ground (arith, later);
  within_token = λ u e h. ground (arith, some_inj e, h);
}

-- The lease that a new request was given.
pub record Granted (ext : LeaseExternal) (db : LeaseDb) (env : LeaseEnv) (inp : LeaseRequestInput)
    (p : Principal) (after : LeaseDb) (r : LeaseRequest) (l : Lease) : Type 0 where
  pub node : SelectedNode
  pub grants : Grants ext db env inp node
  pub on_node : l.node_id ≡ node.id
  pub bounds : Bounds env p.expires_at l.expires_at l.absolute_expires_at
  pub absolute : l.absolute_expires_at ≡ absolute_expiry env
  pub starts_active : is_active l.status ≡ true
  pub own : l.access_token_id ≡ p.token_id
  pub request_own : r.access_token_id ≡ p.token_id
  pub its_key : l.public_key ≡ inp.public_key
  pub its_profile : l.permission_profile ≡ inp.permission_profile
  pub lease_stored : lease_by_id after l.id ≡ some l
  pub request_stored :
      request_by_idempotency after env.environment_id inp.client_request_id ≡ some r

-- A request of the same token answered again, or one that was given a lease.
abbrev pub LeaseOutcome :
    LeaseExternal
    → LeaseDb
    → LeaseEnv
    → LeaseRequestInput
    → Principal
    → LeaseDb × Result LeaseRequestResult
    → Type 0
LeaseOutcome ext db env inp p a =
    (res : LeaseRequestResult)
    → a.1 ≡ ok res
    → ((res.replayed ≡ true)
        × (a.0 ≡ db)
        × (res.lease_request.access_token_id ≡ p.token_id)
        × (request_by_idempotency db env.environment_id inp.client_request_id
            ≡ some res.lease_request))
      ⊎ ((l : Lease) × (res.lease ≡ some l)
          × (res.replayed ≡ false)
          × Granted ext db env inp p a.0 res.lease_request l)

module _ (ext : LeaseExternal) (db : LeaseDb) (env : LeaseEnv) (inp : LeaseRequestInput)
    (p : Principal) (life : HasLifetime env) where
  absolute_later : env.now ≤ absolute_expiry env
  absolute_later = omega (arith, absolute_expiry_eq env life.0 life.1 life.3, life.2)

  granted :
      (node : SelectedNode)
      → Grants ext db env inp node
      → let r = new_request ext env inp p node in
        let l = new_lease env r p.expires_at in
        request_by_idempotency db env.environment_id inp.client_request_id ≡ none
        → lease_by_id db l.id ≡ none
        → Granted ext db env inp p (leased db env r l) r l
  unfolding append_lease_event request_by_idempotency lease_by_id
  granted node grants free new = record {
    node = node;
    grants = grants;
    on_node = refl;
    bounds = first_expiry-Bounds env _ p.expires_at absolute_later;
    absolute = refl;
    starts_active = refl;
    own = refl;
    request_own = refl;
    its_key = refl;
    its_profile = refl;
    lease_stored = find_row-append_new _ db.leases _ new (str_eq_refl _);
    request_stored =
        find_row-append_new _ db.requests _ free
          (rw (str_eq_refl env.environment_id, str_eq_refl inp.client_request_id) refl);
  }

  -- A request that succeeds is either the earlier one of the same token under the same client
  -- id, and then nothing changes; or it passed every check (the gate is open, the input is well
  -- formed, the node is found and enabled), and its lease stands in the table, active, the
  -- token's own, on that node, and expires neither before now, nor after the absolute expiry,
  -- nor after a token that is still valid. The lifetime that the settings give must be positive
  -- and at most 2562047 hours.
  pub lease_outcome : LeaseOutcome ext db env inp p (create_lease_request ext db env inp p)
  unfolding result_for_request
  lease_outcome =
      create_lease_request_cases ext (LeaseOutcome ext db env inp p) db env inp p
        (λ e res h. ground (arith, h))
        (λ r e own res h. inl (
          subst
            (λ (x : LeaseRequestResult).
              (x.replayed ≡ true)
              × (db ≡ db)
              × (x.lease_request.access_token_id ≡ p.token_id)
              × (request_by_idempotency db env.environment_id inp.client_request_id
                  ≡ some x.lease_request))
            (ok_inj h) (refl, refl, own, e)))
        (λ r res h. ground (arith, h))
        (λ node grants free new res h. inr (
          subst
            (λ (x : LeaseRequestResult).
              (l : Lease) × (x.lease ≡ some l)
              × (x.replayed ≡ false)
              × Granted ext db env inp p
                  (leased db env (new_request ext env inp p node)
                    (new_lease env (new_request ext env inp p node) p.expires_at))
                  x.lease_request l)
            (ok_inj h) (_, refl, refl, granted node grants free new)))
