-- ===== src/Common/Rows.antt =====
-- The rows of a table: lists with the selections and updates of the SQL statements.
use Prim.Native.Nat.{ℕ, suc}
use mathlib.Core.Path.{◌≡◌, refl, subst}
use mathlib.Core.Bool.{Bool, true, false}
use mathlib.Core.Option
use mathlib.Core.Option.{Option, none, some}
use mathlib.Core.List.{List, [], ◌∷◌, ◌++◌}
use mathlib.Core.Logic.{inl, inr}
use native.Mathlib.Omega.{arith}
use server_cli.Common.Tests.{if◌then◌else◌, Bool-cases, some_inj}

module _ {ℓ} {A : Type ℓ} where
  abbrev pub length : List A → ℕ
  length [] = 0
  length (x ∷ xs) = suc (length xs)

  -- SELECT … WHERE p, the first row.
  unfoldable pub find_row : (A → Bool) → List A → Option A
  find_row p [] = none
  find_row p (x ∷ xs) = if p x then some x else find_row p xs

  -- SELECT … WHERE p.
  unfoldable pub select_rows : (A → Bool) → List A → List A
  select_rows p [] = []
  select_rows p (x ∷ xs) = let rest = select_rows p xs in if p x then x ∷ rest else rest

  -- UPDATE … SET f WHERE p.
  unfoldable pub update_rows : (A → Bool) → (A → A) → List A → List A
  update_rows p f [] = []
  update_rows p f (x ∷ xs) = (if p x then f x else x) ∷ update_rows p f xs

  abbrev pub All {κ} : (A → Type κ) → List A → Type κ
  All P [] = Unit
  All P (x ∷ xs) = P x × All P xs

  abbrev pub is_some : Option A → Bool
  is_some none = false
  is_some (some a) = true

  -- The row that a selection finds meets its condition.
  pub find_row_holds : (p : A → Bool) (xs : List A) (x : A) → find_row p xs ≡ some x → p x ≡ true
  unfolding find_row
  find_row_holds p [] x h = ground arith
  find_row_holds p (y ∷ xs) x h = ground (arith, find_row_holds p xs x)

  -- An update that leaves `p` alone commutes with the selection of the first row under `p`.
  pub find_row-update_rows :
      (p q : A → Bool) (f : A → A) (xs : List A)
      → ((x : A) → p (f x) ≡ p x)
      → find_row p (update_rows q f xs) ≡ Option.map (λ x. if q x then f x else x) (find_row p xs)
  unfolding find_row update_rows
  find_row-update_rows p q f [] h = refl
  find_row-update_rows p q f (x ∷ xs) h = ground (arith, h x, find_row-update_rows p q f xs h)

  -- What holds of every row before and is kept by the update holds after it.
  pub All-update_rows {κ} :
      {P : A → Type κ} (q : A → Bool) (f : A → A) (xs : List A)
      → ((x : A) → q x ≡ true → P x → P (f x))
      → All P xs
      → All P (update_rows q f xs)
  unfolding update_rows
  All-update_rows q f [] h a = tt
  All-update_rows q f (x ∷ xs) h a = elim (Bool-cases (q x)) [
    | inl e ↦ rw e (h x e a.0, All-update_rows q f xs h a.1)
    | inr e ↦ rw e (a.0, All-update_rows q f xs h a.1)
  ]

  pub find_row-append :
      (p : A → Bool) (xs : List A) (y x : A)
      → find_row p xs ≡ some x
      → find_row p (xs ++ y ∷ []) ≡ some x
  unfolding find_row
  find_row-append p [] y x h = ground arith
  find_row-append p (z ∷ xs) y x h = ground (arith, find_row-append p xs y x)

  pub find_row-append_new :
      (p : A → Bool) (xs : List A) (y : A)
      → find_row p xs ≡ none
      → p y ≡ true
      → find_row p (xs ++ y ∷ []) ≡ some y
  unfolding find_row
  find_row-append_new p [] y h e = ground arith
  find_row-append_new p (z ∷ xs) y h e = ground (arith, find_row-append_new p xs y)

  pub none_not_some : {x : A} → ◌≡◌ {A = Option A} none (some x) → ⊥
  none_not_some h = ground arith

  pub is_some-none : (o : Option A) → is_some o ≡ false → o ≡ none
  is_some-none none h = refl
  is_some-none (some a) h = ground arith

  -- The row that the update selects first is found by its condition afterwards, changed.
  pub find_row-update_rows_self :
      (p : A → Bool) (f : A → A) (xs : List A) (x : A)
      → ((y : A) → p (f y) ≡ p y)
      → find_row p xs ≡ some x
      → find_row p (update_rows p f xs) ≡ some (f x)
  unfolding find_row update_rows
  find_row-update_rows_self p f [] x keep h = ground arith
  find_row-update_rows_self p f (y ∷ xs) x keep h =
      ground (arith, keep y, find_row-update_rows_self p f xs x keep)

  pub All-select_rows {κ} :
      {P : A → Type κ} (q : A → Bool) (xs : List A)
      → ((x : A) → q x ≡ true → P x)
      → All P (select_rows q xs)
  unfolding select_rows
  All-select_rows q [] h = tt
  All-select_rows q (x ∷ xs) h = elim (Bool-cases (q x)) [
    | inl e ↦ rw e (h x e, All-select_rows q xs h)
    | inr e ↦ rw e (All-select_rows q xs h)
  ]

  -- What an update makes of a property of every row.
  pub All-update_rows_to {κ μ} :
      {P : A → Type κ} {R : A → Type μ} (q : A → Bool) (f : A → A) (xs : List A)
      → ((x : A) → q x ≡ true → P x → R (f x))
      → ((x : A) → q x ≡ false → P x → R x)
      → All P xs
      → All R (update_rows q f xs)
  unfolding update_rows
  All-update_rows_to q f [] hit miss a = tt
  All-update_rows_to q f (x ∷ xs) hit miss a = elim (Bool-cases (q x)) [
    | inl e ↦ rw e (hit x e a.0, All-update_rows_to q f xs hit miss a.1)
    | inr e ↦ rw e (miss x e a.0, All-update_rows_to q f xs hit miss a.1)
  ]

  pub All-impl {κ μ} :
      {P : A → Type κ} {R : A → Type μ} (xs : List A) → ((x : A) → P x → R x) → All P xs → All R xs
  All-impl [] h a = tt
  All-impl (x ∷ xs) h a = (h x a.0, All-impl xs h a.1)

  -- What holds of every row holds of the one that is found.
  pub All-find_row {κ} :
      (P : A → Type κ) (q : A → Bool) (xs : List A) {x : A}
      → All P xs
      → find_row q xs ≡ some x
      → P x
  unfolding find_row
  All-find_row P q [] a h = absurd (none_not_some h)
  All-find_row P q (y ∷ xs) a h = elim (Bool-cases (q y)) [
    | inl e ↦ subst P (some_inj (rw e at h)) a.0
    | inr e ↦ All-find_row P q xs a.1 (rw e at h)
  ]
