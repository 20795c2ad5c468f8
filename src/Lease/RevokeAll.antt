-- ===== src/Lease/RevokeAll.antt =====
-- RevokeAll ends every active lease that it is asked to end.
use server_cli.Common.{
  String, str_eq, str_eq_iff, Bool, true, false, ◌&&◌, ◌||◌, ◌≡◌, sym, subst, ap, ◌∙◌, inl, inr,
  some, some_inj, List, [], ◌∷◌, All, All-impl, All-update_rows_to, find_row, select_rows,
  Bool-cases, Option-cases, if_cases, arith, Unique, keyed, Covers, Covers-tail, Standing,
  Unique-Standing, select_rows-Covers, Result, ok,
}
use server_cli.Lease.Model.{is_active, Lease, LeaseDb, LeaseEnv, write_lease}
use server_cli.Lease.Store.{
  lease_key, lease_by_id, update_lease, append_lease_event, active_leases, as_revoked,
}
use server_cli.Lease.Admin.{change_active, revoke, revoke_each, revoke_all, knows_node}
use server_cli.Lease.Administering.{revoke-Grows}

-- An active lease on the node, or anywhere for an empty name.
abbrev pub is_meant : String → Lease → Bool
is_meant node l = (str_eq node "" || str_eq l.node_id node) && is_active l.status

-- The rows that are still to be ended are covered by those that are still to be visited.
abbrev Meant : String → List Lease → List Lease → Type 0
Meant node ls rows = All (λ x. is_meant node x ≡ true → Covers lease_key ls x) rows

-- The same, of rows that each stand under their identifier.
abbrev MeantRow : String → LeaseDb → List Lease → Lease → Type 0
MeantRow node db ls x =
    (is_meant node x ≡ true → Covers lease_key ls x) × (lease_by_id db x.id ≡ some x)

All-pair :
    (node : String) (db : LeaseDb) (ls xs : List Lease)
    → Meant node ls xs
    → Standing lease_key db.leases xs
    → All (MeantRow node db ls) xs
unfolding lease_by_id
All-pair node db ls [] a s = tt
All-pair node db ls (x ∷ xs) a s = ((a.0, s.0), All-pair node db ls xs a.1 s.1)

-- The lease under the identifier of the first row to be visited.
visited :
    (db : LeaseDb) (l x : Lease)
    → lease_by_id db x.id ≡ some x
    → str_eq l.id x.id ≡ true
    → lease_by_id db l.id ≡ some x
visited db l x e h = subst (λ k. lease_by_id db k ≡ some x) (sym ((str_eq_iff l.id x.id).0 h)) e

revoke-Meant :
    (db : LeaseDb) (env : LeaseEnv) (node admin reason : String) (l : Lease) (ls : List Lease)
    → All (MeantRow node db (l ∷ ls)) db.leases
    → Meant node ls (revoke db env l.id admin reason).0.leases
unfolding revoke change_active append_lease_event update_lease
revoke-Meant db env node admin reason l ls a = elim (Option-cases (lease_by_id db l.id)) [
  | inl e ↦
      rw (e, change_active)
        (All-impl db.leases
          (λ x (c, s) h. spare x c h (λ hit. ground (arith, e, visited db l x s hit))) a)
  | inr (m, e) ↦
      rw (e, change_active)
        (if_cases (λ (r : LeaseDb × Result Lease). Meant node ls r.0.leases) (is_active m.status)
          (λ live.
            All-update_rows_to (keyed lease_key m.id) (write_lease (as_revoked env.now reason m))
              db.leases (λ x hit c h. absurd (ground (arith, h)))
              (λ x miss (c, s) h. spare x c h (λ hit. clash x m (visited db l x s hit) e miss)) a)
          (λ ended.
            All-impl db.leases
              (λ x (c, s) h. spare x c h (λ hit. idle x m (visited db l x s hit) e ended h)) a))
]
  where
    spare :
        (x : Lease)
        → (is_meant node x ≡ true → Covers lease_key (l ∷ ls) x)
        → is_meant node x ≡ true
        → (str_eq l.id x.id ≡ true → ⊥)
        → Covers lease_key ls x
    spare x c h other = elim (Bool-cases (str_eq l.id x.id)) [
      | inl hit ↦ absurd (other hit)
      | inr miss ↦ Covers-tail lease_key l ls x miss (c h)
    ]

    clash :
        (x m : Lease)
        → lease_by_id db l.id ≡ some x
        → lease_by_id db l.id ≡ some m
        → keyed lease_key m.id x ≡ false
        → ⊥
    clash x m f e miss =
        let one : x ≡ m = some_inj (sym f ∙ e) in
        let same : str_eq x.id m.id ≡ true =
          (str_eq_iff x.id m.id).1 (ap (λ (y : Lease). y.id) one) in
        ground (arith, same, miss)

    idle :
        (x m : Lease)
        → lease_by_id db l.id ≡ some x
        → lease_by_id db l.id ≡ some m
        → is_active m.status ≡ false
        → is_meant node x ≡ true
        → ⊥
    idle x m f e ended h =
        let one : m ≡ x = some_inj (sym e ∙ f) in
        let over : is_active x.status ≡ false = subst (λ y. is_active y.status ≡ false) one ended in
        ground (arith, over, h)

revoke_each_ends :
    (env : LeaseEnv) (node admin reason : String) (ls : List Lease) (db : LeaseDb)
    → Unique lease_key db.leases
    → Meant node ls db.leases
    → All (λ x. is_meant node x ≡ false) (revoke_each db env admin reason ls).0.leases
unfolding revoke_each find_row
revoke_each_ends env node admin reason [] db u a = All-impl db.leases (λ x h. ground (arith, h)) a
revoke_each_ends env node admin reason (l ∷ ls) db u a =
    revoke_each_ends env node admin reason ls (revoke db env l.id admin reason).0
      ((revoke-Grows db env l.id admin reason).1 u)
      (revoke-Meant db env node admin reason l ls
        (All-pair node db (l ∷ ls) db.leases a (Unique-Standing lease_key db.leases u)))

-- When RevokeAll succeeds no lease that it was asked to end is active: none on the node that it
-- names, or none at all where it names none. The identifiers of the leases must be distinct.
pub revoke_all_ends :
    (db : LeaseDb) (env : LeaseEnv) (node admin reason : String) (done : List Lease)
    → Unique lease_key db.leases
    → (revoke_all db env node admin reason).1 ≡ ok done
    → All (λ x. is_meant node x ≡ false) (revoke_all db env node admin reason).0.leases
unfolding revoke_all active_leases
revoke_all_ends db env node admin reason done u =
    if_cases P (str_eq node "") (λ h k. ended)
      (λ h. if_cases P (knows_node db node) (λ known k. ended) (λ unknown k. ground (arith, k)))
  where
    P : LeaseDb × Result (List Lease) → Type 0
    P r = r.1 ≡ ok done → All (λ x. is_meant node x ≡ false) r.0.leases

    ended :
        All
          (λ x. is_meant node x ≡ false)
          (revoke_each db env admin reason (select_rows (is_meant node) db.leases)).0.leases
    ended =
        revoke_each_ends env node admin reason (select_rows (is_meant node) db.leases) db u
          (select_rows-Covers lease_key (is_meant node) db.leases)
