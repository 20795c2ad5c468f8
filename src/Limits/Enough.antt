-- ===== src/Limits/Enough.antt =====
-- Enough failures within the window end in a lock.
use server_cli.Common.{
  ℕ, suc, ◌+◌, ◌≤◌, ◌<◌, String, Bool, ◌≡◌, refl, sym, subst, ap, ◌∙◌, inl, inr, ◌⊎◌, List, [], ◌∷◌,
  ◌++◌, All, is_some, Option-cases, length, leb, select_rows, Bool-cases, if_cases, arith,
}
use server_cli.Limits.Login.{
  Bucket, LoginLimiter, bucket_of, is_locked, locked, is_recent, fail_bucket, with_bucket,
  held_bucket, record_failure, record_failures,
}
use server_cli.Limits.Lockout.{failed_bucket, held_none, held_some}

length-select_rows : (q : ℕ → Bool) (xs : List ℕ) → length (select_rows q xs) ≤ length xs
unfolding select_rows
length-select_rows q [] = ground arith
length-select_rows q (x ∷ xs) = elim (Bool-cases (q x)) [
  | inl e ↦ rw e (omega (arith, length-select_rows q xs))
  | inr e ↦ rw e (omega (arith, length-select_rows q xs))
]

-- The failures since an instant.
abbrev since : ℕ → List ℕ → ℕ
since first fs = length (select_rows (leb first) fs)

since-append :
    (first t : ℕ) (fs : List ℕ) → first ≤ t → since first (fs ++ t ∷ []) ≡ since first fs + 1
unfolding select_rows
since-append first t [] h = ground (arith, h)
since-append first t (f ∷ fs) h = ground (arith, since-append first t fs h)

-- A failure that comes before the window has passed drops none of those since its beginning.
since-select_rows :
    (first t window : ℕ) (fs : List ℕ)
    → t < first + window
    → since first (select_rows (is_recent t window) fs) ≡ since first fs
unfolding select_rows
since-select_rows first t window [] h = refl
since-select_rows first t window (f ∷ fs) h =
    ground (arith, h, since-select_rows first t window fs h)

-- After `n` failures since an instant: locked for good measure, or unlocked with the failures kept.
abbrev Counted : LoginLimiter → ℕ → ℕ → Bucket → Type 0
Counted l first n b =
    (first + l.lock_duration ≤ b.locked_until)
    ⊎ ((b.locked_until ≤ first)
        × (n ≤ since first b.failures)
        × (0 < n → length b.failures < l.max_failures))

fail_bucket-Counted :
    (l : LoginLimiter) (first n t : ℕ) (b : Bucket)
    → l.window ≤ l.lock_duration
    → first ≤ t
    → t < first + l.window
    → Counted l first n b
    → Counted l first (n + 1) (fail_bucket l t b).0
unfolding fail_bucket
fail_bucket-Counted l first n t b longer after before (inl h) =
    if_cases (λ (r : Bucket × Bool). Counted l first (n + 1) r.0) (is_locked t b) (λ k. inl h)
      (λ k. absurd (ground (arith, longer, before, h, k)))
fail_bucket-Counted l first n t b longer after before (inr (h, kept, few)) =
    if_cases P (is_locked t b) (λ k. absurd (ground (arith, after, h, k)))
      (λ k.
        if_cases P (leb l.max_failures (length failures)) (λ full. inl (omega (arith, after)))
          (λ room. inr (h, omega (arith, counted, kept), λ some_. ground (arith, room))))
  where
    P : Bucket × Bool → Type 0
    P r = Counted l first (n + 1) r.0

    failures : List ℕ
    failures = select_rows (is_recent t l.window) b.failures ++ t ∷ []

    counted : since first failures ≡ since first b.failures + 1
    counted =
        since-append first t (select_rows (is_recent t l.window) b.failures) after
        ∙ ap (λ m. m + 1) (since-select_rows first t l.window b.failures before)

-- The policy of a limiter does not change.
abbrev SamePolicy : LoginLimiter → LoginLimiter → Type 0
SamePolicy l m =
    (m.max_failures ≡ l.max_failures) × (m.window ≡ l.window) × (m.lock_duration ≡ l.lock_duration)

record_failure-SamePolicy :
    (l : LoginLimiter) (key : String) (t : ℕ) → SamePolicy l (record_failure l key t).0
unfolding record_failure with_bucket
record_failure-SamePolicy l key t =
    if_cases (λ (m : LoginLimiter). SamePolicy l m) (is_some (bucket_of l key))
      (λ h. (refl, refl, refl)) (λ h. (refl, refl, refl))

held_after :
    (l : LoginLimiter) (key : String) (t : ℕ)
    → held_bucket (record_failure l key t).0 key ≡ (fail_bucket l t (held_bucket l key)).0
held_after l key t = held_some (record_failure l key t).0 key _ (failed_bucket l key t)

abbrev Within : ℕ → ℕ → ℕ → Type 0
Within first window t = (first ≤ t) × (t < first + window)

fail_bucket-SamePolicy :
    (l m : LoginLimiter) (t : ℕ) (b : Bucket)
    → SamePolicy l m
    → fail_bucket m t b ≡ fail_bucket l t b
unfolding fail_bucket
fail_bucket-SamePolicy l m t b (max, window, lock) = rw (max, window, lock) refl

-- Where `n` failures in all have led: to a lock, or to as many kept, but too few for one.
abbrev Led : LoginLimiter → ℕ → ℕ → Bucket → Type 0
Led l first n b =
    (first + l.lock_duration ≤ b.locked_until)
    ⊎ ((n ≤ length b.failures) × (0 < n → length b.failures < l.max_failures))

record_failures-Led :
    (l : LoginLimiter) (key : String) (first : ℕ) (ts : List ℕ) (m : LoginLimiter) (n : ℕ)
    → SamePolicy l m
    → l.window ≤ l.lock_duration
    → All (Within first l.window) ts
    → Counted l first n (held_bucket m key)
    → Led l first (n + length ts) (held_bucket (record_failures m key ts) key)
unfolding record_failures
record_failures-Led l key first [] m n policy longer a (inl h) = inl h
record_failures-Led l key first [] m n policy longer a (inr (h, kept, few)) = inr (
  omega (arith, kept, length-select_rows (leb first) (held_bucket m key).failures),
  λ some_. few (omega (arith, some_)),
)
record_failures-Led l key first (t ∷ ts) m n policy longer a c =
    subst (λ k. Led l first k (held_bucket (record_failures next key ts) key)) regroup
      (record_failures-Led l key first ts next (n + 1)
        (step.0 ∙ policy.0, step.1 ∙ policy.1, step.2 ∙ policy.2) longer a.1
        (subst (Counted l first (n + 1)) (sym moved)
          (fail_bucket-Counted l first n t (held_bucket m key) longer a.0.0 a.0.1 c)))
  where
    next : LoginLimiter
    next = (record_failure m key t).0

    step : SamePolicy m next
    step = record_failure-SamePolicy m key t

    moved : held_bucket next key ≡ (fail_bucket l t (held_bucket m key)).0
    moved =
        held_after m key t
        ∙ ap (λ (r : Bucket × Bool). r.0) (fail_bucket-SamePolicy l m t (held_bucket m key) policy)

    regroup : n + 1 + length ts ≡ n + suc (length ts)
    regroup = omega arith

locked_held :
    (l : LoginLimiter) (key : String) (now : ℕ)
    → now < (held_bucket l key).locked_until
    → 0 < locked l key now
unfolding locked
locked_held l key now h = elim (Option-cases (bucket_of l key)) [
  | inl e ↦ absurd (ground (arith, subst (λ b. now < b.locked_until) (held_none l key e) h))
  | inr (b, e) ↦
      rw (e, locked) (ground (arith, subst (λ b'. now < b'.locked_until) (held_some l key b e) h))
]

-- If a key is not locked at the start of a window, the window is no longer than the lock duration,
-- and the limit is positive, then as many failures under the key as the limiter allows at most, at times that lie within one window, in any
-- order, leave the key locked until that window has passed.
pub enough_failures_lock :
    (l : LoginLimiter) (key : String) (first now : ℕ) (ts : List ℕ)
    → l.window ≤ l.lock_duration
    → 0 < l.max_failures
    → (held_bucket l key).locked_until ≤ first
    → All (Within first l.window) ts
    → l.max_failures ≤ length ts
    → now < first + l.window
    → 0 < locked (record_failures l key ts) key now
enough_failures_lock l key first now ts longer some_allowed unlocked within enough before =
    locked_held (record_failures l key ts) key now (
      conclude (
        record_failures-Led l key first ts l 0 (refl, refl, refl) longer within
          (inr (unlocked, ground arith, λ none_. ground arith))))
  where
    b : Bucket
    b = held_bucket (record_failures l key ts) key

    conclude : Led l first (0 + length ts) b → now < b.locked_until
    conclude (inl h) = omega (arith, h, before, longer)
    conclude (inr (kept, few)) =
        absurd (omega (arith, kept, enough, few (omega (arith, some_allowed, enough))))
