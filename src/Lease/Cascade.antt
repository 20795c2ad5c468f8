-- ===== src/Lease/Cascade.antt =====
-- RevokeTokenCascade ends every lease of its token, and no other.
use mathlib.Core.Option
use server_cli.Common.{
  ℕ, String, str_eq, str_eq_iff, Bool, true, false, ◌≡◌, ◌≢◌, refl, sym, subst, ap, ◌∙◌, inl, inr,
  some, some_inj, List, [], ◌∷◌, All, All-impl, All-update_rows_to, All-select_rows, find_row,
  find_row-update_rows, find_row_holds, select_rows, Bool-cases, arith, Unique, keyed, Standing,
  Covers, Covers-tail, select_rows-Standing, select_rows-Covers,
}
use server_cli.Lease.Model.{Lease, LeaseDb, LeaseEnv}
use server_cli.Lease.Store.{
  lease_key, lease_by_id, active_with_id, active_of_token, as_revoked, revoke_rows,
  revoke_token_and_leases,
}
use server_cli.Lease.Admin.{revoke_token_cascade}
use server_cli.Lease.Administering.{leases-log_revoked}

-- The rows that the loop has still to end are covered by the rows that it has still to visit.
revoke_rows_ends :
    (now : ℕ) (token reason : String) (ls rows : List Lease)
    → All (λ x. active_of_token token x ≡ true → Covers lease_key ls x) rows
    → All (λ x. active_of_token token x ≡ false) (revoke_rows now reason ls rows)
unfolding revoke_rows find_row
revoke_rows_ends now token reason [] rows a = All-impl rows (λ x h. ground (arith, h)) a
revoke_rows_ends now token reason (l ∷ ls) rows a = revoke_rows_ends now token reason ls _ (
    All-update_rows_to (active_with_id l.id) (as_revoked now reason) rows
      (λ x hit c h. absurd (ground (arith, h)))
      (λ x miss c h. Covers-tail lease_key l ls x (elsewhere x miss h) (c h)) a)
  where
    elsewhere :
        (x : Lease)
        → active_with_id l.id x ≡ false
        → active_of_token token x ≡ true
        → str_eq l.id x.id ≡ false
    elsewhere x miss h = ground (arith, miss, h, str_eq_iff l.id x.id, str_eq_iff x.id l.id)

-- A row whose identifier is none of those visited is left alone.
revoke_rows_keep :
    (now : ℕ) (reason id : String) (x : Lease) (ls rows : List Lease)
    → All (λ (l : Lease). str_eq id l.id ≡ false) ls
    → find_row (keyed lease_key id) rows ≡ some x
    → find_row (keyed lease_key id) (revoke_rows now reason ls rows) ≡ some x
unfolding revoke_rows
revoke_rows_keep now reason id x [] rows a e = e
revoke_rows_keep now reason id x (l ∷ ls) rows a e = revoke_rows_keep now reason id x ls _ a.1 (
    find_row-update_rows (keyed lease_key id) (active_with_id l.id) (as_revoked now reason) rows
      (λ y. refl)
    ∙ rw (e, Option.map, unmoved) refl)
  where
    unmoved : active_with_id l.id x ≡ false
    unmoved =
        let at_id : x.id ≡ id =
          (str_eq_iff x.id id).0 (find_row_holds (keyed lease_key id) rows x e) in
        rw at_id (ground (arith, a.0))

others_elsewhere :
    (rows : List Lease) (token id : String) (x : Lease)
    → x.access_token_id ≢ token
    → find_row (keyed lease_key id) rows ≡ some x
    → (ls : List Lease) → All (λ l. active_of_token token l ≡ true) ls
    → Standing lease_key rows ls
    → All (λ (l : Lease). str_eq id l.id ≡ false) ls
others_elsewhere rows token id x other e [] a s = tt
others_elsewhere rows token id x other e (l ∷ ls) a s = (
  elim (Bool-cases (str_eq id l.id)) [
    | inr h ↦ h
    | inl h ↦
        let same : id ≡ l.id = (str_eq_iff id l.id).0 h in
        let one : x ≡ l =
          some_inj
            (sym e ∙ subst (λ k. find_row (keyed lease_key k) rows ≡ some l) (sym same) s.0) in
        let its : l.access_token_id ≡ token =
          (str_eq_iff l.access_token_id token).0 (ground (arith, a.0)) in
        absurd (other (ap (λ (y : Lease). y.access_token_id) one ∙ its))
  ],
  others_elsewhere rows token id x other e ls a.1 s.1,
)

select_rows_nothing :
    (q : Lease → Bool) (ls : List Lease) → All (λ l. q l ≡ false) ls → select_rows q ls ≡ []
unfolding select_rows
select_rows_nothing q [] a = refl
select_rows_nothing q (l ∷ ls) a = rw (a.0, select_rows_nothing q ls a.1) refl

-- After an administrator revokes a token no lease of it is active, each lease of any other token
-- stands as it stood, and revoking the token again revokes nothing more. The identifiers of the
-- leases must be distinct.
pub cascade_exact :
    (db : LeaseDb) (env env' : LeaseEnv) (token admin reason : String)
    → Unique lease_key db.leases
    → let db' = (revoke_token_cascade db env token admin reason).0 in
      All (λ l. active_of_token token l ≡ false) db'.leases
      × ((id : String) (x : Lease)
          → lease_by_id db id ≡ some x
          → x.access_token_id ≢ token
          → lease_by_id db' id ≡ some x)
      × ((revoke_token_cascade db' env' token admin reason).1 ≡ [])
unfolding revoke_token_cascade revoke_token_and_leases lease_by_id
cascade_exact db env env' token admin reason unique =
    let affected = select_rows (active_of_token token) db.leases in
    let ended =
      revoke_rows_ends env.now token reason affected db.leases
        (select_rows-Covers lease_key (active_of_token token) db.leases) in
    (
      rw (leases-log_revoked _ env admin affected) ended,
      λ id x e other. rw (leases-log_revoked _ env admin affected) (
          revoke_rows_keep env.now reason id x affected db.leases
            (others_elsewhere db.leases token id x other e affected
              (All-select_rows (active_of_token token) db.leases (λ l h. h))
              (select_rows-Standing lease_key (active_of_token token) db.leases unique))
            e),
      rw (leases-log_revoked _ env admin affected) (select_rows_nothing _ _ ended),
    )
