-- ===== src/Limits/Examples.antt =====
-- Runs of the limiter of failed sign-ins.
use server_cli.Common.{
  ◌≤◌, ◌<◌, str_eq, true, ◌≡◌, refl, [], ◌∷◌, arith, Unique, find_row, select_rows,
}
use server_cli.Limits.Login.{
  LoginLimiter, new_login_limiter, bucket_key, bucket_of, held_bucket, locked, record_failure,
  record_failures, fail_bucket, with_bucket, last_failure, cleanup,
}
use server_cli.Limits.Lockout.{fails, cleans, login_calls, lock_holds}
use server_cli.Limits.Enough.{enough_failures_lock}
use server_cli.Limits.Idle.{InOrder, SeenAlike, cleanup_unseen}

abbrev nearly : LoginLimiter
nearly = record new_login_limiter {
  buckets = record { key = "a"; failures = 1 ∷ 2 ∷ 3 ∷ 4 ∷ []; locked_until = 0 } ∷ [];
}

fifth : (record_failure nearly "a" 5).1 ≡ true
unfolding record_failure fail_bucket with_bucket bucket_of find_row str_eq select_rows
fifth = refl

lock_holds_example :
    locked
      (login_calls
        (record_failure nearly "a" 5).0
        (fails "a" 6 ∷ cleans 100_000_000_000 ∷ fails "b" 7 ∷ []))
      "a"
      10
    ≡ 299_999_999_995
lock_holds_example =
    lock_holds nearly "a" 5 10 (fails "a" 6 ∷ cleans 100_000_000_000 ∷ fails "b" 7 ∷ []) fifth
      (ground arith)

unlocked : (held_bucket new_login_limiter "a").locked_until ≤ 10
unfolding bucket_of find_row
unlocked = ground arith

enough_failures_lock_example :
    0 < locked (record_failures new_login_limiter "a" (10 ∷ 20 ∷ 30 ∷ 40 ∷ 50 ∷ [])) "a" 60
enough_failures_lock_example =
    enough_failures_lock new_login_limiter "a" 10 60 (10 ∷ 20 ∷ 30 ∷ 40 ∷ 50 ∷ []) (ground arith)
      (ground arith) unlocked (ground arith) (ground arith) (ground arith)

keys_a : Unique bucket_key nearly.buckets
unfolding find_row
keys_a = (refl, tt)

ordered : InOrder (held_bucket nearly "a").failures
unfolding bucket_of find_row str_eq last_failure
ordered last e = ground (arith, e)

cleanup_unseen_example : SeenAlike nearly (cleanup nearly 400_000_000_000) "a" 500_000_000_000
cleanup_unseen_example =
    cleanup_unseen nearly "a" 400_000_000_000 500_000_000_000 keys_a ordered (ground arith)
