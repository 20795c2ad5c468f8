-- ===== src/Lease/Holding.antt =====
-- The operations of a lease's holder move it only as `Moves` says.
use server_cli.Common.{
  ℕ, ℤ, ◌≤◌, String, str_eq, str_eq_iff, true, false, not, ◌≡◌, refl, inl, inr, Option, none, some,
  ltb, Bool-cases, Option-cases, if_cases, not-false, arith, Error, Result, err, not_found,
  terminal, forbidden,
}
use server_cli.Lease.Model.{is_active, Lease, LeaseDb, LeaseEnv, Principal, write_lease}
use server_cli.Lease.Store.{lease_by_id, update_lease, expire_lease, append_lease_event}
use server_cli.Lease.Requests.{at_most}
use server_cli.Lease.Holder.{
  Verdict, refuses, denies, lapses, writes, judge_renewal, judge_heartbeat, judge_disconnection,
  carry_out, auth_lease, by_holder, audit_denied, renew, heartbeat, disconnect, renewed,
  next_expiry, renewals_closed,
}
use server_cli.Lease.Moves.{
  Moves, LeasesGrow, LeasesGrow-refl, update_lease-Grows, expire_lease-Grows, leases-append_event,
}

-- A verdict that writes nothing but a move of the lease.
abbrev pub Sound : Lease → Verdict → Type 0
Sound l (writes l') = (l'.id ≡ l.id) × Moves l (write_lease l' l)
Sound l _ = Unit

at_most_le : (t b : ℕ) (o : Option ℕ) → at_most (at_most t (some b)) o ≤ b
at_most_le t b none = ground arith
at_most_le t b (some u) = ground arith

pub next_expiry_le :
    (env : LeaseEnv) (l : Lease) (p : Principal) (asked : ℤ)
    → next_expiry env l p asked ≤ l.absolute_expires_at
unfolding next_expiry
next_expiry_le env l p asked = at_most_le _ l.absolute_expires_at p.expires_at

renewed-Moves :
    (env : LeaseEnv) (l : Lease) (expiry : ℕ)
    → is_active l.status ≡ true
    → l.renewal_disabled ≡ false
    → ltb l.expires_at expiry ≡ true
    → expiry ≤ l.absolute_expires_at
    → Moves l (write_lease (renewed env expiry l) l)
renewed-Moves env l expiry live enabled longer within = record {
  ended = λ h. ground (arith, h, live);
  not_shorter = ground arith;
  within = inr within;
  fixed_if_ended = λ h. ground (arith, h, live);
  fixed_if_disabled = λ h. ground (arith, h, enabled);
  stays_disabled = λ h. h;
  stays_protected = λ h. h;
  same_absolute = refl;
  same_issued = refl;
  same_token = refl;
  same_node = refl;
  same_key = refl;
  same_profile = refl;
}

-- Renew writes a renewed lease if it passes every guard, and nothing else.
pub judge_renewal_cases {ℓ} :
    (P : Verdict → Type ℓ) (env : LeaseEnv) (l : Lease) (p : Principal) (asked : ℤ)
    → ((e : Error) (summary : String) → P (denies e summary))
    → P lapses
    → (is_active l.status ≡ true
        → l.renewal_disabled ≡ false
        → renewals_closed env ≡ false
        → ltb env.now l.expires_at ≡ true
        → ltb l.expires_at (next_expiry env l p asked) ≡ true
        → P (writes (renewed env (next_expiry env l p asked) l)))
    → P (judge_renewal env l p asked)
unfolding judge_renewal
judge_renewal_cases P env l p asked deny lapse write =
    if_cases P (not (is_active l.status)) (λ h. deny terminal "")
      (λ live.
        if_cases P l.renewal_disabled (λ h. deny forbidden "renewal denied: disabled")
          (λ enabled.
            if_cases P (renewals_closed env) (λ h. deny forbidden "renewal denied: global gate")
              (λ gate.
                if_cases P (not (ltb env.now l.expires_at)) (λ h. lapse)
                  (λ fresh.
                    if_cases P (not (ltb env.now l.absolute_expires_at)) (λ h. lapse)
                      (λ capped.
                        if_cases P (ltb l.expires_at (next_expiry env l p asked))
                          (λ longer.
                            write (not-false _ live) enabled gate (not-false _ fresh) longer)
                          (λ h. deny forbidden ""))))))

judge_renewal-Sound :
    (env : LeaseEnv) (l : Lease) (p : Principal) (asked : ℤ) → Sound l (judge_renewal env l p asked)
judge_renewal-Sound env l p asked =
    judge_renewal_cases (Sound l) env l p asked (λ e summary. tt) tt
      (λ live enabled gate fresh longer.
        (refl, renewed-Moves env l _ live enabled longer (next_expiry_le env l p asked)))

judge_heartbeat-Sound : (env : LeaseEnv) (l : Lease) → Sound l (judge_heartbeat env l)
unfolding judge_heartbeat
judge_heartbeat-Sound env l =
    if_cases (Sound l) (not (is_active l.status)) (λ h. tt)
      (λ live.
        if_cases (Sound l) (not (ltb env.now l.expires_at)) (λ h. tt)
          (λ fresh. (refl, ground arith)))

judge_disconnection-Sound : (env : LeaseEnv) (l : Lease) → Sound l (judge_disconnection env l)
unfolding judge_disconnection
judge_disconnection-Sound env l =
    if_cases (Sound l) (not (is_active l.status)) (λ h. tt) (λ live. (refl, ground (arith, live)))

carry_out-Grows :
    (db : LeaseDb) (env : LeaseEnv) (id : String) (l : Lease) (denied done : String) (v : Verdict)
    → lease_by_id db id ≡ some l
    → Sound l v
    → LeasesGrow db.leases (carry_out db env l denied done v).0.leases
unfolding carry_out audit_denied
carry_out-Grows db env id l denied done (refuses e) found sound = LeasesGrow-refl db.leases
carry_out-Grows db env id l denied done (denies e summary) found sound =
    if_cases (λ (d : LeaseDb). LeasesGrow db.leases d.leases) (str_eq summary "") (λ h. logged)
      (λ h. logged)
  where
    logged :
        LeasesGrow db.leases (append_lease_event db env.now l.id denied "ai" l.ai_agent_id).leases
    logged =
        rw (leases-append_event db env.now l.id denied "ai" l.ai_agent_id)
          (LeasesGrow-refl db.leases)
carry_out-Grows db env id l denied done lapses found sound =
    rw (leases-append_event (expire_lease db l.id).0 env.now l.id "expired" "system" "scheduler")
      (expire_lease-Grows db l.id)
carry_out-Grows db env id l denied done (writes l') found sound =
    if_cases (λ (d : LeaseDb). LeasesGrow db.leases d.leases) (str_eq done "") (λ h. written)
      (λ h.
        rw (leases-append_event (update_lease db l') env.now l.id done "ai" l.ai_agent_id) written)
  where
    written : LeasesGrow db.leases (update_lease db l').leases
    written = update_lease-Grows db id l l' found sound.0 sound.1

-- A principal's operation is refused as that of a stranger, or carried out on a lease of the
-- principal's own token.
pub by_holder_cases {ℓ} :
    (P : LeaseDb × Result Lease → Type ℓ) (db : LeaseDb) (env : LeaseEnv) (id : String)
    (p : Principal) (stranger : LeaseDb → LeaseDb) (denied done : String) (judge : Lease → Verdict)
    → P (stranger db, err not_found)
    → ((l : Lease)
        → lease_by_id db id ≡ some l
        → l.access_token_id ≡ p.token_id
        → P (carry_out db env l denied done (judge l)))
    → P (by_holder db env id p stranger denied done judge)
unfolding by_holder auth_lease
by_holder_cases P db env id p stranger denied done judge refuse accept =
    elim (Option-cases (lease_by_id db id)) [
      | inl e ↦ rw (e, by_holder) refuse
      | inr (l, e) ↦
          rw (e, by_holder)
            (elim (Bool-cases (str_eq l.access_token_id p.token_id)) [
              | inl own ↦ rw own (accept l e ((str_eq_iff l.access_token_id p.token_id).0 own))
              | inr other ↦ rw other refuse
            ])
    ]

by_holder-Grows :
    (db : LeaseDb) (env : LeaseEnv) (id : String) (p : Principal) (stranger : LeaseDb → LeaseDb)
    (denied done : String) (judge : Lease → Verdict)
    → (stranger db).leases ≡ db.leases
    → ((l : Lease) → Sound l (judge l))
    → LeasesGrow db.leases (by_holder db env id p stranger denied done judge).0.leases
by_holder-Grows db env id p stranger denied done judge kept sound =
    by_holder_cases (λ r. LeasesGrow db.leases r.0.leases) db env id p stranger denied done judge
      (rw kept (LeasesGrow-refl db.leases))
      (λ l e own. carry_out-Grows db env id l denied done (judge l) e (sound l))

pub renew-Grows :
    (db : LeaseDb) (env : LeaseEnv) (id : String) (p : Principal) (asked : ℤ)
    → LeasesGrow db.leases (renew db env id p asked).0.leases
unfolding renew audit_denied
renew-Grows db env id p asked =
    by_holder-Grows db env id p _ _ _ _ refl (λ l. judge_renewal-Sound env l p asked)

pub heartbeat-Grows :
    (db : LeaseDb) (env : LeaseEnv) (id : String) (p : Principal)
    → LeasesGrow db.leases (heartbeat db env id p).0.leases
unfolding heartbeat
heartbeat-Grows db env id p = by_holder-Grows db env id p _ _ _ _ refl (judge_heartbeat-Sound env)

pub disconnect-Grows :
    (db : LeaseDb) (env : LeaseEnv) (id : String) (p : Principal)
    → LeasesGrow db.leases (disconnect db env id p).0.leases
unfolding disconnect
disconnect-Grows db env id p =
    by_holder-Grows db env id p _ _ _ _ refl (judge_disconnection-Sound env)
