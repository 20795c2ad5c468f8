-- ===== src/Task/Claims/Oldest.antt =====
-- Which of the waiting tasks the SELECT of ClaimNextTask finds (backend/internal/store/task.go).

use server_cli.Common.{
  ◌≤◌, String, true, false, ◌≡◌, subst, inl, inr, none, some, List, [], ◌∷◌, Bool-cases,
  Option-cases, arith, All, sym, stamp_before, second_of, stamp_before_irrefl, stamp_before_asym,
  stamp_before_trans, stamp_before_second,
}
use server_cli.Task.Model.{Task}
use server_cli.Task.Store.{is_waiting, sorts_before, next_waiting}

All-mono {ℓ κ λ'} :
    {A : Type ℓ} {P : A → Type κ} {Q : A → Type λ'} (xs : List A)
    → ((x : A) → P x → Q x)
    → All P xs
    → All Q xs
All-mono [] f a = tt
All-mono (x ∷ xs) f a = (f x a.0, All-mono xs f a.1)

-- The stored time of `u` does not sort before that of `t`, and is of no earlier second.
abbrev pub OldestOf : Task → Task → Type 0
OldestOf t u =
    (stamp_before u.queued_at t.queued_at ≡ false) × (second_of t.queued_at ≤ second_of u.queued_at)

-- No waiting row of this node has a stored time that sorts before that of `t`, so that none was
-- queued in an earlier second.
abbrev pub IsOldest : String → Task → List Task → Type 0
IsOldest node t ts = All (λ u. is_waiting node u ≡ true → OldestOf t u) ts

no_earlier : (t u : Task) → stamp_before u.queued_at t.queued_at ≡ false → OldestOf t u
no_earlier t u h = (h, stamp_before_second u.queued_at t.queued_at h)

itself : (t : Task) → OldestOf t t
itself t = no_earlier t t (stamp_before_irrefl t.queued_at)

sorts_before-true :
    (t u : Task) → sorts_before t u ≡ true → stamp_before u.queued_at t.queued_at ≡ false
unfolding sorts_before
sorts_before-true t u h = elim (Bool-cases (stamp_before t.queued_at u.queued_at)) [
  | inl e ↦ stamp_before_asym t.queued_at u.queued_at e
  | inr e ↦
      let same : t.queued_at ≡ u.queued_at = ground (arith, e, h) in
      rw same (stamp_before_irrefl u.queued_at)
]

sorts_before-false :
    (t u : Task) → sorts_before t u ≡ false → stamp_before t.queued_at u.queued_at ≡ false
unfolding sorts_before
sorts_before-false t u h = ground arith

abbrev pub NoneWaits : String → List Task → Type 0
NoneWaits node ts = All (λ u. is_waiting node u ≡ false) ts

next_waiting-none :
    (node : String) (ts : List Task) → next_waiting node ts ≡ none → NoneWaits node ts
unfolding next_waiting
next_waiting-none node [] h = tt
next_waiting-none node (x ∷ ts) h = elim (Bool-cases (is_waiting node x)) [
  | inl w ↦ absurd (ground (arith, w))
  | inr idle ↦ (idle, next_waiting-none node ts (ground (arith, idle)))
]

older :
    (node : String) (t u : Task) (ts : List Task)
    → stamp_before u.queued_at t.queued_at ≡ false
    → IsOldest node u ts
    → IsOldest node t ts
older node t u ts h =
    All-mono ts
      (λ x f w. no_earlier t x (stamp_before_trans x.queued_at u.queued_at t.queued_at (f w).0 h))

pub next_waiting-IsOldest :
    (node : String) (ts : List Task) (t : Task) → next_waiting node ts ≡ some t → IsOldest node t ts
unfolding next_waiting
next_waiting-IsOldest node [] t h = tt
next_waiting-IsOldest node (x ∷ ts) t h = elim (Option-cases (next_waiting node ts)) [
  | inl e ↦ (
    λ w. let one : x ≡ t = ground (arith, e, w) in subst (λ u. OldestOf t u) (sym one) (itself t),
    All-mono ts (λ u idle w. absurd (ground (arith, idle, w))) (next_waiting-none node ts e),
  )
  | inr (u, e) ↦ elim (Bool-cases (is_waiting node x)) [
    | inl w ↦ elim (Bool-cases (sorts_before u x)) [
      | inl later ↦
          let one : u ≡ t = ground (arith, e, w, later) in
          subst (λ y. IsOldest node y (x ∷ ts)) one
            (λ k. no_earlier u x (sorts_before-true u x later), next_waiting-IsOldest node ts u e)
      | inr first ↦
          let one : x ≡ t = ground (arith, e, w, first) in
          subst (λ y. IsOldest node y (x ∷ ts)) one
            (
              λ k. itself x,
              older node x u ts (sorts_before-false u x first) (next_waiting-IsOldest node ts u e),
            )
    ]
    | inr idle ↦
        let one : u ≡ t = ground (arith, e, idle) in
        subst (λ y. IsOldest node y (x ∷ ts)) one
          (λ w. absurd (ground (arith, idle, w)), next_waiting-IsOldest node ts u e)
  ]
]
