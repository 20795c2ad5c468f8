-- ===== src/Lease/Moves.antt =====
-- What an operation may do to a lease row, and the statements of store/lease.go that do no more.
use server_cli.Common.{
  ℕ, ◌≤◌, String, str_eq_iff, Bool, true, false, ◌&&◌, ◌≡◌, refl, sym, subst, ◌∙◌, ◌⊎◌, inl, inr,
  none, some, List, [], ◌∷◌, ◌++◌, find_row, find_row_holds, update_rows, arith, Grows, Grows-refl,
  Grows-trans, Grows-update_rows, Grows-update_row, Grows-append, keyed,
}
use server_cli.Lease.Model.{is_active, Lease, LeaseDb, write_lease}
use server_cli.Lease.Store.{
  lease_key, lease_by_id, update_lease, active_with_id, as_expired, as_revoked, expire_lease,
  append_lease_event, revoke_rows, is_untokenized, is_overdue,
}

-- The later row `s` of the lease whose row was `r`.
pub record Moves (r s : Lease) : Type 0 where
  pub ended : is_active r.status ≡ false → s.status ≡ r.status
  pub not_shorter : r.expires_at ≤ s.expires_at
  pub within : (s.expires_at ≡ r.expires_at) ⊎ (s.expires_at ≤ r.absolute_expires_at)
  pub fixed_if_ended : is_active r.status ≡ false → s.expires_at ≡ r.expires_at
  pub fixed_if_disabled : r.renewal_disabled ≡ true → s.expires_at ≡ r.expires_at
  pub stays_disabled : r.renewal_disabled ≡ true → s.renewal_disabled ≡ true
  pub stays_protected : r.is_protected ≡ true → s.is_protected ≡ true
  pub same_absolute : s.absolute_expires_at ≡ r.absolute_expires_at
  pub same_issued : s.issued_at ≡ r.issued_at
  pub same_token : s.access_token_id ≡ r.access_token_id
  pub same_node : s.node_id ≡ r.node_id
  pub same_key : s.public_key ≡ r.public_key
  pub same_profile : s.permission_profile ≡ r.permission_profile

pub Moves-refl : (r : Lease) → Moves r r
Moves-refl r = record {
  ended = λ h. refl;
  not_shorter = ground arith;
  within = inl refl;
  fixed_if_ended = λ h. refl;
  fixed_if_disabled = λ h. refl;
  stays_disabled = λ h. h;
  stays_protected = λ h. h;
  same_absolute = refl;
  same_issued = refl;
  same_token = refl;
  same_node = refl;
  same_key = refl;
  same_profile = refl;
}

still_ended : (r s : Lease) → Moves r s → is_active r.status ≡ false → is_active s.status ≡ false
still_ended r s a h = subst (λ x. is_active x ≡ false) (sym (a.ended h)) h

pub Moves-trans : (r s t : Lease) → Moves r s → Moves s t → Moves r t
Moves-trans r s t a b = record {
  ended = λ h. b.ended (still_ended r s a h) ∙ a.ended h;
  not_shorter = omega (arith, a.not_shorter, b.not_shorter);
  within = within (a.within) (b.within);
  fixed_if_ended = λ h. b.fixed_if_ended (still_ended r s a h) ∙ a.fixed_if_ended h;
  fixed_if_disabled = λ h. b.fixed_if_disabled (a.stays_disabled h) ∙ a.fixed_if_disabled h;
  stays_disabled = λ h. b.stays_disabled (a.stays_disabled h);
  stays_protected = λ h. b.stays_protected (a.stays_protected h);
  same_absolute = b.same_absolute ∙ a.same_absolute;
  same_issued = b.same_issued ∙ a.same_issued;
  same_token = b.same_token ∙ a.same_token;
  same_node = b.same_node ∙ a.same_node;
  same_key = b.same_key ∙ a.same_key;
  same_profile = b.same_profile ∙ a.same_profile;
}
  where
    within :
        ((s.expires_at ≡ r.expires_at) ⊎ (s.expires_at ≤ r.absolute_expires_at))
        → ((t.expires_at ≡ s.expires_at) ⊎ (t.expires_at ≤ s.absolute_expires_at))
        → (t.expires_at ≡ r.expires_at) ⊎ (t.expires_at ≤ r.absolute_expires_at)
    within (inl e) (inl f) = inl (f ∙ e)
    within (inr e) (inl f) = inr (subst (λ x. x ≤ r.absolute_expires_at) (sym f) e)
    within x (inr f) = inr (subst (λ x. t.expires_at ≤ x) (a.same_absolute) f)

-- The lease table of a later database.
abbrev pub LeasesGrow : List Lease → List Lease → Type 0
LeasesGrow = Grows lease_key Moves Moves-refl Moves-trans

pub LeasesGrow-refl : (ls : List Lease) → LeasesGrow ls ls
LeasesGrow-refl = Grows-refl lease_key Moves Moves-refl Moves-trans

pub LeasesGrow-trans :
    (ls ms ns : List Lease) → LeasesGrow ls ms → LeasesGrow ms ns → LeasesGrow ls ns
LeasesGrow-trans = Grows-trans lease_key Moves Moves-refl Moves-trans

-- A row that an operation reached while it was active, under the same key.
abbrev pub Ends : (Lease → Lease) → Type 0
Ends f = (l : Lease) → is_active l.status ≡ true → Moves l (f l)

pub as_expired-Ends : Ends as_expired
as_expired-Ends l h = ground arith

pub as_revoked-Ends : (now : ℕ) (reason : String) → Ends (as_revoked now reason)
as_revoked-Ends now reason l h = ground arith

and_left : (a b : Bool) → (a && b) ≡ true → a ≡ true
and_left a b h = ground arith

and_right : (a b : Bool) → (a && b) ≡ true → b ≡ true
and_right a b h = ground arith

-- An UPDATE of active rows.
pub ending_rows-Grow :
    (q : Lease → Bool) (f : Lease → Lease)
    → ((l : Lease) → (f l).id ≡ l.id)
    → ((l : Lease) → q l ≡ true → is_active l.status ≡ true)
    → Ends f
    → (ls : List Lease) → LeasesGrow ls (update_rows q f ls)
ending_rows-Grow q f keep live ends =
    Grows-update_rows lease_key Moves Moves-refl Moves-trans q f keep (λ l h. ends l (live l h))

pub expire_lease-Grows :
    (db : LeaseDb) (id : String) → LeasesGrow db.leases (expire_lease db id).0.leases
unfolding expire_lease
expire_lease-Grows db id =
    ending_rows-Grow (active_with_id id) as_expired (λ l. refl) (λ l h. and_right _ _ h)
      as_expired-Ends db.leases

pub revoke_rows-Grows :
    (now : ℕ) (reason : String) (ls rows : List Lease)
    → LeasesGrow rows (revoke_rows now reason ls rows)
unfolding revoke_rows
revoke_rows-Grows now reason [] rows = LeasesGrow-refl rows
revoke_rows-Grows now reason (l ∷ ls) rows =
    LeasesGrow-trans rows _ _
      (ending_rows-Grow (active_with_id l.id) (as_revoked now reason) (λ l. refl)
        (λ l h. and_right _ _ h) (as_revoked-Ends now reason) rows)
      (revoke_rows-Grows now reason ls _)

pub untokenized_rows-Grow :
    (now : ℕ) (reason : String) (ls : List Lease)
    → LeasesGrow ls (update_rows is_untokenized (as_revoked now reason) ls)
untokenized_rows-Grow now reason =
    ending_rows-Grow is_untokenized (as_revoked now reason) (λ l. refl) (λ l h. and_left _ _ h)
      (as_revoked-Ends now reason)

pub overdue_rows-Grow :
    (now : ℕ) (ls : List Lease) → LeasesGrow ls (update_rows (is_overdue now) as_expired ls)
overdue_rows-Grow now =
    ending_rows-Grow (is_overdue now) as_expired (λ l. refl) (λ l h. ground (arith, h))
      as_expired-Ends

-- UpdateLease on the row that LeaseByID found.
pub update_lease-Grows :
    (db : LeaseDb) (id : String) (old new : Lease)
    → lease_by_id db id ≡ some old
    → new.id ≡ old.id
    → Moves old (write_lease new old)
    → LeasesGrow db.leases (update_lease db new).leases
unfolding lease_by_id update_lease
update_lease-Grows db id old new e same a =
    Grows-update_row lease_key Moves Moves-refl Moves-trans new.id (write_lease new) db.leases old
      (λ l. refl)
      (subst (λ k. find_row (keyed lease_key k) db.leases ≡ some old)
        (sym
          (same ∙ (str_eq_iff old.id id).0 (find_row_holds (keyed lease_key id) db.leases old e)))
        e)
      a

pub append_lease-Grows :
    (ls : List Lease) (l : Lease)
    → find_row (keyed lease_key l.id) ls ≡ none
    → LeasesGrow ls (ls ++ l ∷ [])
append_lease-Grows = Grows-append lease_key Moves Moves-refl Moves-trans

pub leases-append_event :
    (db : LeaseDb) (now : ℕ) (id event actor who : String)
    → (append_lease_event db now id event actor who).leases ≡ db.leases
unfolding append_lease_event
leases-append_event db now id event actor who = refl
