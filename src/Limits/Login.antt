-- ===== src/Limits/Login.antt =====
-- LoginLimiter of backend/internal/security/ratelimit.go: one bucket of recent failures for each
-- address and user name. An operation takes the limiter and returns it with its result.
use Prim.Native.String.{◌++◌ as join}
use server_cli.Common.{
  ℕ, ◌+◌, ◌-◌, String, Bool, true, false, not, ◌&&◌, if◌then◌else◌, Option, none, some, List, [],
  ◌∷◌, ◌++◌, length, ltb, leb, find_row, select_rows, update_rows, is_some, keyed,
}

pub record Bucket : Type 0 where
  pub key : String
  pub failures : List ℕ
  pub locked_until : ℕ

pub record LoginLimiter : Type 0 where
  pub buckets : List Bucket
  pub max_failures : ℕ
  pub window : ℕ
  pub lock_duration : ℕ

-- NewLoginLimiter.
abbrev pub new_login_limiter : LoginLimiter
new_login_limiter = record {
  buckets = [];
  max_failures = 5;
  window = 300_000_000_000;
  lock_duration = 300_000_000_000;
}

abbrev pub bucket_key : Bucket → String
bucket_key b = b.key

abbrev pub login_key : String → String → String
login_key ip username = join ip (join "\0" username)

abbrev pub empty_bucket : String → Bucket
empty_bucket key = record { key = key; failures = []; locked_until = 0 }

unfoldable pub bucket_of : LoginLimiter → String → Option Bucket
bucket_of l key = find_row (keyed bucket_key key) l.buckets

-- lockedUntil.After(now).
abbrev pub is_locked : ℕ → Bucket → Bool
is_locked now b = ltb now b.locked_until

-- Locked: the time for which the lock still holds.
unfoldable pub locked : LoginLimiter → String → ℕ → ℕ
locked l key now = elim (bucket_of l key) [ none ↦ 0 | some b ↦ b.locked_until - now ]

-- Whether a failure is younger than the window: f.After(now.Add(-window)).
abbrev pub is_recent : ℕ → ℕ → ℕ → Bool
is_recent now window f = ltb now (f + window)

-- What RecordFailure does to the bucket, and its answer.
unfoldable pub fail_bucket : LoginLimiter → ℕ → Bucket → Bucket × Bool
fail_bucket l now b =
    let failures = select_rows (is_recent now l.window) b.failures ++ now ∷ [] in
    if is_locked now b
    then (b, false)
    else if leb l.max_failures (length failures)
    then (record b { failures = []; locked_until = now + l.lock_duration }, true)
    else (record b { failures = failures }, false)

-- The bucket under a key, which is made where there is none.
unfoldable pub with_bucket : LoginLimiter → String → LoginLimiter
with_bucket l key =
    if is_some (bucket_of l key)
    then l
    else record l { buckets = l.buckets ++ empty_bucket key ∷ [] }

abbrev pub held_bucket : LoginLimiter → String → Bucket
held_bucket l key = elim (bucket_of l key) [ none ↦ empty_bucket key | some b ↦ b ]

-- RecordFailure.
unfoldable pub record_failure : LoginLimiter → String → ℕ → LoginLimiter × Bool
record_failure l key now =
    let l' = with_bucket l key in
    (
      record l' {
        buckets = update_rows (keyed bucket_key key) (λ b. (fail_bucket l now b).0) l'.buckets;
      },
      (fail_bucket l now (held_bucket l key)).1,
    )

abbrev pub has_other_key : String → Bucket → Bool
has_other_key key b = not (keyed bucket_key key b)

-- Reset.
unfoldable pub reset : LoginLimiter → String → LoginLimiter
reset l key = record l { buckets = select_rows (has_other_key key) l.buckets }

unfoldable pub last_failure : List ℕ → Option ℕ
last_failure [] = none
last_failure (f ∷ []) = some f
last_failure (f ∷ g ∷ fs) = last_failure (g ∷ fs)

-- No failure, or the last one before now.Add(-window).
abbrev pub is_old : ℕ → ℕ → List ℕ → Bool
is_old now window fs = elim (last_failure fs) [ none ↦ true | some f ↦ ltb (f + window) now ]

abbrev pub is_idle : LoginLimiter → ℕ → Bucket → Bool
is_idle l now b = not (is_locked now b) && is_old now l.window b.failures

-- Cleanup.
unfoldable pub cleanup : LoginLimiter → ℕ → LoginLimiter
cleanup l now = record l { buckets = select_rows (λ b. not (is_idle l now b)) l.buckets }

-- Failures under one key, one after another.
unfoldable pub record_failures : LoginLimiter → String → List ℕ → LoginLimiter
record_failures l key [] = l
record_failures l key (t ∷ ts) = record_failures (record_failure l key t).0 key ts
