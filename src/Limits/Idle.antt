-- ===== src/Limits/Idle.antt =====
-- A clean-up is never noticed: what it removes would have counted for nothing.
use server_cli.Common.{
  ℕ, ◌+◌, ◌-◌, ◌≤◌, ◌<◌, String, str_eq_iff, Bool, true, false, not, ◌≡◌, refl, sym, subst, ap, ◌∙◌,
  inl, inr, Option, none, some, some_inj, List, [], ◌∷◌, All, find_row, select_rows, Bool-cases,
  Option-cases, arith, Unique, keyed, find_row-select_rows-none,
}
use server_cli.Limits.Login.{
  Bucket, LoginLimiter, bucket_key, empty_bucket, bucket_of, is_locked, locked, is_recent,
  fail_bucket, held_bucket, record_failure, last_failure, is_old, is_idle, cleanup,
}
use server_cli.Limits.Lockout.{find_row-select_rows, held_none, held_some}

-- The last failure is the latest.
abbrev pub InOrder : List ℕ → Type 0
InOrder fs = (last : ℕ) → last_failure fs ≡ some last → All (λ f. f ≤ last) fs

nothing_recent :
    (now later window last : ℕ) (fs : List ℕ)
    → now ≤ later
    → last + window < now
    → All (λ f. f ≤ last) fs
    → select_rows (is_recent later window) fs ≡ []
unfolding select_rows
nothing_recent now later window last [] h old a = refl
nothing_recent now later window last (f ∷ fs) h old a =
    let miss : is_recent later window f ≡ false = ground (arith, h, old, a.0) in
    rw (miss, nothing_recent now later window last fs h old a.1) refl

no_last : (xs : List ℕ) → last_failure xs ≡ none → xs ≡ []
unfolding last_failure
no_last [] e = refl
no_last (x ∷ []) e = ground (arith, e)
no_last (x ∷ y ∷ xs) e = let rest : y ∷ xs ≡ [] = no_last (y ∷ xs) e in ground (arith, rest)

-- Failures of which the last is old count for nothing later.
old_forgotten :
    (now later window : ℕ) (fs : List ℕ)
    → now ≤ later
    → InOrder fs
    → is_old now window fs ≡ true
    → select_rows (is_recent later window) fs ≡ []
unfolding select_rows
old_forgotten now later window fs h order old = elim (Option-cases (last_failure fs)) [
  | inl e ↦ rw (no_last fs e) refl
  | inr (last, e) ↦
      nothing_recent now later window last fs h (ground (arith, e, old)) (order last e)
]

-- A row with a unique key that a selection drops is not found in it.
dropped_row :
    (q : Bucket → Bool) (key : String) (xs : List Bucket) (b : Bucket)
    → Unique bucket_key xs
    → find_row (keyed bucket_key key) xs ≡ some b
    → q b ≡ false
    → find_row (keyed bucket_key key) (select_rows q xs) ≡ none
unfolding find_row select_rows
dropped_row q key [] b u e h = ground (arith, e)
dropped_row q key (x ∷ xs) b u e h = elim (Bool-cases (keyed bucket_key key x)) [
  | inl hit ↦
      let one : x ≡ b = some_inj (sym (rw hit refl) ∙ e) in
      let at_key : x.key ≡ key = (str_eq_iff x.key key).0 hit in
      let rest : find_row (keyed bucket_key key) xs ≡ none =
        subst (λ k. find_row (keyed bucket_key k) xs ≡ none) at_key u.0 in
      rw (subst (λ y. q y ≡ false) (sym one) h)
        (find_row-select_rows-none (keyed bucket_key key) q xs rest)
  | inr miss ↦
      let later = dropped_row q key xs b u.1 (ground (arith, e, miss)) h in
      elim (Bool-cases (q x)) [ inl k ↦ rw k (rw miss later) | inr k ↦ rw k later ]
]

-- What a later caller can see of a key: the time left of its lock, and whether a failure locks it.
abbrev pub SeenAlike : LoginLimiter → LoginLimiter → String → ℕ → Type 0
SeenAlike l m key later =
    (locked m key later ≡ locked l key later)
    × ((record_failure m key later).1 ≡ (record_failure l key later).1)

-- Two buckets that are locked alike and have the same recent failures answer alike.
fail_alike :
    (l : LoginLimiter) (later : ℕ) (b c : Bucket)
    → is_locked later b ≡ is_locked later c
    → select_rows (is_recent later l.window) b.failures
      ≡ select_rows (is_recent later l.window) c.failures
    → (fail_bucket l later b).1 ≡ (fail_bucket l later c).1
unfolding fail_bucket
fail_alike l later b c locks recent = ground (arith, locks, recent)

cleanup_answer :
    (l : LoginLimiter) (key : String) (now later : ℕ)
    → (record_failure (cleanup l now) key later).1
      ≡ (fail_bucket l later (held_bucket (cleanup l now) key)).1
unfolding record_failure fail_bucket cleanup
cleanup_answer l key now later = refl

answer :
    (l : LoginLimiter) (key : String) (later : ℕ)
    → (record_failure l key later).1 ≡ (fail_bucket l later (held_bucket l key)).1
unfolding record_failure
answer l key later = refl

-- The bucket of a key is the same after a clean-up.
seen_same :
    (l : LoginLimiter) (key : String) (now later : ℕ)
    → bucket_of (cleanup l now) key ≡ bucket_of l key
    → SeenAlike l (cleanup l now) key later
unfolding locked
seen_same l key now later e = (
  ap (λ (o : Option Bucket). elim o [ none ↦ 0 | some b ↦ b.locked_until - later ]) e,
  cleanup_answer l key now later
      ∙ ap
          (λ (o : Option Bucket).
            (fail_bucket l later (elim o [ none ↦ empty_bucket key | some b ↦ b ])).1)
          e
      ∙ sym (answer l key later),
)

-- The bucket of a key is dropped by a clean-up.
seen_dropped :
    (l : LoginLimiter) (key : String) (now later : ℕ) (b : Bucket)
    → bucket_of (cleanup l now) key ≡ none
    → bucket_of l key ≡ some b
    → is_idle l now b ≡ true
    → InOrder b.failures
    → now ≤ later
    → SeenAlike l (cleanup l now) key later
unfolding locked select_rows
seen_dropped l key now later b gone e idle order h = (
  rw (gone, e, locked) (ground (arith, idle, h)),
  cleanup_answer l key now later
      ∙ ap (λ c. (fail_bucket l later c).1) (held_none (cleanup l now) key gone)
      ∙ fail_alike l later (empty_bucket key) b (ground (arith, idle, h))
          (sym (old_forgotten now later l.window b.failures h order (ground (arith, idle))))
      ∙ sym (answer l key later ∙ ap (λ c. (fail_bucket l later c).1) (held_some l key b e)),
)

-- A clean-up changes nothing that a later caller can see of any key: neither the time left of a
-- lock, nor whether the next failure locks the key. The keys of the buckets must be distinct, and
-- the failures of a bucket in order.
pub cleanup_unseen :
    (l : LoginLimiter) (key : String) (now later : ℕ)
    → Unique bucket_key l.buckets
    → InOrder (held_bucket l key).failures
    → now ≤ later
    → SeenAlike l (cleanup l now) key later
unfolding cleanup bucket_of
cleanup_unseen l key now later u order h = elim (Option-cases (bucket_of l key)) [
  | inl e ↦ seen_same l key now later (
      find_row-select_rows-none (keyed bucket_key key) (λ x. not (is_idle l now x)) l.buckets e
      ∙ sym e)
  | inr (b, e) ↦ elim (Bool-cases (is_idle l now b)) [
    | inl idle ↦
        seen_dropped l key now later b
          (dropped_row (λ x. not (is_idle l now x)) key l.buckets b u e (ap not idle)) e idle
          (subst (λ x. InOrder x.failures) (held_some l key b e) order) h
    | inr busy ↦ seen_same l key now later (
        find_row-select_rows (keyed bucket_key key) (λ x. not (is_idle l now x)) l.buckets b e
          (ap not busy)
        ∙ sym e)
  ]
]
