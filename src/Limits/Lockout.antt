-- ===== src/Limits/Lockout.antt =====
-- A lock is reached after enough failures, and holds until it ends.
use mathlib.Core.Option
use server_cli.Common.{
  ℕ, ◌+◌, ◌-◌, ◌<◌, String, str_eq, str_eq_iff, str_eq_refl, Bool, true, false, not, ◌≡◌, ◌≢◌, refl,
  sym, subst, ap, ◌∙◌, inl, inr, none, some, List, [], ◌∷◌, All, find_row, find_row_holds,
  find_row-update_rows, find_row-update_rows_self, find_row-append, find_row-append_new, is_some,
  select_rows, Bool-cases, Option-cases, if_cases, arith, keyed,
}
use server_cli.Limits.Login.{
  Bucket, LoginLimiter, bucket_key, empty_bucket, bucket_of, is_locked, locked, fail_bucket,
  with_bucket, held_bucket, record_failure, reset, has_other_key, is_idle, cleanup,
}

-- The row that a selection keeps is found in it.
pub find_row-select_rows :
    (p q : Bucket → Bool) (xs : List Bucket) (x : Bucket)
    → find_row p xs ≡ some x
    → q x ≡ true
    → find_row p (select_rows q xs) ≡ some x
unfolding find_row select_rows
find_row-select_rows p q [] x h k = ground (arith, h)
find_row-select_rows p q (y ∷ xs) x h k = ground (arith, h, k, find_row-select_rows p q xs x)

fail_bucket-key : (l : LoginLimiter) (now : ℕ) (b : Bucket) → (fail_bucket l now b).0.key ≡ b.key
unfolding fail_bucket
fail_bucket-key l now b = ground arith

pub held_none :
    (l : LoginLimiter) (key : String)
    → bucket_of l key ≡ none
    → held_bucket l key ≡ empty_bucket key
held_none l key e = rw (e, held_bucket) refl

pub held_some :
    (l : LoginLimiter) (key : String) (b : Bucket)
    → bucket_of l key ≡ some b
    → held_bucket l key ≡ b
held_some l key b e = rw (e, held_bucket) refl

make_bucket :
    (l : LoginLimiter) (key : String)
    → bucket_of l key ≡ none
    → bucket_of (with_bucket l key) key ≡ some (empty_bucket key)
unfolding with_bucket bucket_of
make_bucket l key e =
    rw e
      (find_row-append_new (keyed bucket_key key) l.buckets (empty_bucket key) e (str_eq_refl key))

find_bucket :
    (l : LoginLimiter) (key : String) (b : Bucket)
    → bucket_of l key ≡ some b
    → bucket_of (with_bucket l key) key ≡ some b
unfolding with_bucket
find_bucket l key b e = rw (e, with_bucket) e

held-with_bucket :
    (l : LoginLimiter) (key : String) → bucket_of (with_bucket l key) key ≡ some (held_bucket l key)
held-with_bucket l key = elim (Option-cases (bucket_of l key)) [
  | inl e ↦ make_bucket l key e ∙ ap some (sym (held_none l key e))
  | inr (b, e) ↦ find_bucket l key b e ∙ ap some (sym (held_some l key b e))
]

-- The bucket of a failure is there afterwards as `fail_bucket` leaves it.
pub failed_bucket :
    (l : LoginLimiter) (key : String) (now : ℕ)
    → bucket_of (record_failure l key now).0 key ≡ some (fail_bucket l now (held_bucket l key)).0
unfolding record_failure bucket_of
failed_bucket l key now =
    find_row-update_rows_self (keyed bucket_key key) (λ b. (fail_bucket l now b).0)
      (with_bucket l key).buckets (held_bucket l key) (λ b. rw (fail_bucket-key l now b) refl)
      (held-with_bucket l key)

-- What other callers do before a lock ends: any failure, a sign-in under another key, a clean-up.
pub data LoginCall : Type 0 where
  fails : String → ℕ → LoginCall
  succeeds : String → LoginCall
  cleans : ℕ → LoginCall

unfoldable pub login_call : LoginLimiter → LoginCall → LoginLimiter
login_call l (fails key now) = (record_failure l key now).0
login_call l (succeeds key) = reset l key
login_call l (cleans now) = cleanup l now

unfoldable pub login_calls : LoginLimiter → List LoginCall → LoginLimiter
login_calls l [] = l
login_calls l (c ∷ cs) = login_calls (login_call l c) cs

-- A call before the instant, that is no success under the key.
abbrev pub Harmless : String → ℕ → LoginCall → Type 0
Harmless key until (fails other now) = now < until
Harmless key until (succeeds other) = other ≢ key
Harmless key until (cleans now) = now < until

-- The bucket under the key is locked until the instant.
abbrev pub LockedUntil : LoginLimiter → String → ℕ → Type 0
LockedUntil l key until = (b : Bucket) × (bucket_of l key ≡ some b) × (b.locked_until ≡ until)

still_locked :
    (l : LoginLimiter) (now until : ℕ) (b : Bucket)
    → b.locked_until ≡ until
    → now < until
    → (fail_bucket l now b).0 ≡ b
unfolding fail_bucket
still_locked l now until b e h =
    if_cases (λ (r : Bucket × Bool). r.0 ≡ b) (is_locked now b) (λ k. refl)
      (λ k. absurd (ground (arith, e, h, k)))

with_bucket_other :
    (l : LoginLimiter) (key other : String) (b : Bucket)
    → bucket_of l key ≡ some b
    → bucket_of (with_bucket l other) key ≡ some b
unfolding with_bucket bucket_of
with_bucket_other l key other b e =
    if_cases (λ (x : LoginLimiter). find_row (keyed bucket_key key) x.buckets ≡ some b)
      (is_some (bucket_of l other)) (λ h. e)
      (λ h. find_row-append (keyed bucket_key key) l.buckets (empty_bucket other) b e)

-- A bucket that is found under a key has it.
found_key : (l : LoginLimiter) (key : String) (b : Bucket) → bucket_of l key ≡ some b → b.key ≡ key
unfolding bucket_of
found_key l key b e = (str_eq_iff b.key key).0 (find_row_holds (keyed bucket_key key) l.buckets b e)

other_failure :
    (l : LoginLimiter) (key other : String) (now : ℕ) (b : Bucket)
    → str_eq key other ≡ false
    → bucket_of l key ≡ some b
    → bucket_of (record_failure l other now).0 key ≡ some b
unfolding record_failure bucket_of
other_failure l key other now b apart e =
    let stands : find_row (keyed bucket_key key) (with_bucket l other).buckets ≡ some b =
      with_bucket_other l key other b e in
    let miss : keyed bucket_key other b ≡ false =
      subst (λ k. str_eq k other ≡ false) (sym (found_key l key b e)) apart in
    find_row-update_rows (keyed bucket_key key) (keyed bucket_key other)
      (λ b'. (fail_bucket l now b').0) (with_bucket l other).buckets
      (λ b'. rw (fail_bucket-key l now b') refl)
    ∙ rw (stands, Option.map, miss) refl

failure_keeps_lock :
    (l : LoginLimiter) (key other : String) (now until : ℕ)
    → now < until
    → LockedUntil l key until
    → LockedUntil (record_failure l other now).0 key until
failure_keeps_lock l key other now until h (b, e, k) = elim (Bool-cases (str_eq key other)) [
  | inl same ↦
      let one : key ≡ other = (str_eq_iff key other).0 same in
      subst (λ o. LockedUntil (record_failure l o now).0 key until) one
        (
          b,
          failed_bucket l key now
              ∙ ap some (
                  ap (λ x. (fail_bucket l now x).0) (held_some l key b e)
                  ∙ still_locked l now until b k h),
          k,
        )
  | inr apart ↦ (b, other_failure l key other now b apart e, k)
]

reset_keeps_lock :
    (l : LoginLimiter) (key other : String) (until : ℕ)
    → other ≢ key
    → LockedUntil l key until
    → LockedUntil (reset l other) key until
unfolding reset bucket_of
reset_keeps_lock l key other until apart (b, e, k) =
    (b, find_row-select_rows (keyed bucket_key key) (has_other_key other) l.buckets b e kept, k)
  where
    kept : has_other_key other b ≡ true
    kept = elim (Bool-cases (str_eq b.key other)) [
      | inl h ↦ absurd (apart (sym ((str_eq_iff b.key other).0 h) ∙ found_key l key b e))
      | inr h ↦ rw h refl
    ]

cleanup_keeps_lock :
    (l : LoginLimiter) (key : String) (now until : ℕ)
    → now < until
    → LockedUntil l key until
    → LockedUntil (cleanup l now) key until
unfolding cleanup bucket_of
cleanup_keeps_lock l key now until h (b, e, k) = (
  b,
  find_row-select_rows (keyed bucket_key key) (λ x. not (is_idle l now x)) l.buckets b e
      (ground (arith, h, k)),
  k,
)

call_keeps_lock :
    (l : LoginLimiter) (key : String) (until : ℕ) (c : LoginCall)
    → Harmless key until c
    → LockedUntil l key until
    → LockedUntil (login_call l c) key until
unfolding login_call
call_keeps_lock l key until (fails other now) h k = failure_keeps_lock l key other now until h k
call_keeps_lock l key until (succeeds other) h k = reset_keeps_lock l key other until h k
call_keeps_lock l key until (cleans now) h k = cleanup_keeps_lock l key now until h k

calls_keep_lock :
    (key : String) (until : ℕ) (cs : List LoginCall) (l : LoginLimiter)
    → All (Harmless key until) cs
    → LockedUntil l key until
    → LockedUntil (login_calls l cs) key until
unfolding login_calls
calls_keep_lock key until [] l a k = k
calls_keep_lock key until (c ∷ cs) l a k =
    calls_keep_lock key until cs (login_call l c) a.1 (call_keeps_lock l key until c a.0 k)

locking :
    (l : LoginLimiter) (now : ℕ) (b : Bucket)
    → (fail_bucket l now b).1 ≡ true
    → (fail_bucket l now b).0.locked_until ≡ now + l.lock_duration
unfolding fail_bucket
locking l now b = ground arith

locked_for :
    (l : LoginLimiter) (key : String) (until now : ℕ)
    → LockedUntil l key until
    → locked l key now ≡ until - now
unfolding locked
locked_for l key until now (b, e, k) = rw (e, locked) (rw k refl)

-- Once RecordFailure answers that a key is now locked, the lock holds for the whole lock duration:
-- whatever failures, under this key or others, and clean-ups come before it ends, and whatever
-- sign-ins succeed under other keys, Locked answers with the time that is left of it.
pub lock_holds :
    (l : LoginLimiter) (key : String) (now later : ℕ) (cs : List LoginCall)
    → (record_failure l key now).1 ≡ true
    → All (Harmless key (now + l.lock_duration)) cs
    → locked (login_calls (record_failure l key now).0 cs) key later ≡ now + l.lock_duration - later
unfolding record_failure
lock_holds l key now later cs h a =
    locked_for (login_calls (record_failure l key now).0 cs) key (now + l.lock_duration) later (
      calls_keep_lock key (now + l.lock_duration) cs (record_failure l key now).0 a (
        (fail_bucket l now (held_bucket l key)).0,
        failed_bucket l key now,
        locking l now (held_bucket l key) h,
      ))
