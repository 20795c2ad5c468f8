-- ===== src/Common/Keyed.antt =====
-- Tables with a primary key: what stays distinct, and how a table grows when every statement on
-- it only moves its rows along a preorder.
use mathlib.Core.Path.{◌≡◌, refl, sym, ap, ◌∙◌, subst}
use mathlib.Core.Bool.{Bool, true, false}
use mathlib.Core.Logic.{inl, inr}
use mathlib.Core.Option
use mathlib.Core.Option.{Option, none, some}
use mathlib.Core.List.{List, [], ◌∷◌, ◌++◌}
use native.Mathlib.Omega.{arith}
use Prim.Native.String.{String}
use server_cli.Common.Tests.{if◌then◌else◌, Bool-cases}
use server_cli.Common.Rows.{
  find_row, none_not_some, find_row_holds, find_row-update_rows, find_row-append, update_rows,
}
use server_cli.Common.Texts.{str_eq, str_eq_iff, str_eq_refl}

module _ {ℓ} {A : Type ℓ} where
  find_row-append_none :
      (p : A → Bool) (xs : List A) (y : A)
      → find_row p xs ≡ none
      → p y ≡ false
      → find_row p (xs ++ y ∷ []) ≡ none
  unfolding find_row
  find_row-append_none p [] y h e = ground arith
  find_row-append_none p (x ∷ xs) y h e = ground (arith, find_row-append_none p xs y)

  -- A row that is not found stands nowhere.
  pub find_row_step :
      (p : A → Bool) (x : A) (xs : List A)
      → find_row p (x ∷ xs) ≡ none
      → (p x ≡ false) × (find_row p xs ≡ none)
  unfolding find_row
  find_row_step p x xs h = ground arith

module _ {ℓ} {A : Type ℓ} (key : A → String) where
  abbrev pub keyed : String → A → Bool
  keyed id x = str_eq (key x) id

  -- No two rows share a key.
  abbrev pub Unique : List A → Type ℓ
  Unique [] = Unit
  Unique (x ∷ xs) = (find_row (keyed (key x)) xs ≡ none) × Unique xs

  -- Where keys are distinct, a row found in any way is the one with its key.
  pub found_by_key :
      (p : A → Bool) (xs : List A) (x : A)
      → Unique xs
      → find_row p xs ≡ some x
      → find_row (keyed (key x)) xs ≡ some x
  unfolding find_row
  found_by_key p [] x d h = ground arith
  found_by_key p (y ∷ ys) x (new, d) h = elim (Bool-cases (p y)) [
    | inl hit ↦
        let same : y ≡ x = ground (arith, hit, h) in
        subst (λ r. find_row (keyed (key r)) (y ∷ ys) ≡ some r) same (rw (str_eq_refl (key y)) refl)
    | inr miss ↦
        let rest = found_by_key p ys x d (ground (arith, miss, h)) in
        elim (Bool-cases (keyed (key x) y)) [
          | inl clash ↦
              let gone : find_row (keyed (key x)) ys ≡ none =
                subst (λ i. find_row (keyed i) ys ≡ none) ((str_eq_iff (key y) (key x)).0 clash)
                  new in
              absurd (none_not_some (sym gone ∙ rest))
          | inr apart ↦ rw apart rest
        ]
  ]

  pub Unique-update_rows :
      (q : A → Bool) (f : A → A) (xs : List A)
      → ((x : A) → key (f x) ≡ key x)
      → Unique xs
      → Unique (update_rows q f xs)
  unfolding update_rows
  Unique-update_rows q f [] keep d = tt
  Unique-update_rows q f (t ∷ ts) keep d = (head (q t), Unique-update_rows q f ts keep d.1)
    where
      same : (b : Bool) → key (if b then f t else t) ≡ key t
      same true = keep t
      same false = refl

      kept : find_row (keyed (key t)) (update_rows q f ts) ≡ none
      kept =
          find_row-update_rows (keyed (key t)) q f ts (λ x. rw (keep x) refl)
          ∙ ap (Option.map (λ x. if q x then f x else x)) d.0

      head : (b : Bool) → find_row (keyed (key (if b then f t else t))) (update_rows q f ts) ≡ none
      head b = rw (same b) kept

  Unique-append :
      (xs : List A) (y : A) → Unique xs → find_row (keyed (key y)) xs ≡ none → Unique (xs ++ y ∷ [])
  unfolding find_row
  Unique-append [] y d h = (refl, tt)
  Unique-append (x ∷ xs) y d h =
      let (other, rest) = find_row_step (keyed (key y)) x xs h in
      (
        find_row-append_none (keyed (key x)) xs y d.0 (flip (key x) (key y) other),
        Unique-append xs y d.1 rest,
      )
    where
      flip : (a b : String) → str_eq a b ≡ false → str_eq b a ≡ false
      flip a b e = ground (arith, str_eq_iff a b, str_eq_iff b a)

  -- A preorder on the states of one row.
  module _ {κ} (Moves : A → A → Type κ) (stays : (x : A) → Moves x x)
      (goes_on : (x y z : A) → Moves x y → Moves y z → Moves x z) where
    -- Every row of the first table is in the second, moved along; keys stay unique.
    abbrev pub Grows : List A → List A → Type (ℓ ⊔ κ)
    Grows xs ys =
        ((id : String) (x : A)
          → find_row (keyed id) xs ≡ some x
          → (y : A) × (find_row (keyed id) ys ≡ some y) × Moves x y)
        × (Unique xs → Unique ys)

    pub Grows-refl : (xs : List A) → Grows xs xs
    Grows-refl xs = (λ id x h. (x, h, stays x), λ d. d)

    pub Grows-trans : (xs ys zs : List A) → Grows xs ys → Grows ys zs → Grows xs zs
    Grows-trans xs ys zs f g = (
      λ id x h.
          let (y, e, a) = f.0 id x h in let (z, e', b) = g.0 id y e in (z, e', goes_on x y z a b),
      λ d. g.1 (f.1 d),
    )

    -- An UPDATE whose every changed row moves along.
    pub Grows-update_rows :
        (q : A → Bool) (f : A → A)
        → ((x : A) → key (f x) ≡ key x)
        → ((x : A) → q x ≡ true → Moves x (f x))
        → (xs : List A) → Grows xs (update_rows q f xs)
    Grows-update_rows q f keep move xs = (
      λ id x h.
          let found = find_row-update_rows (keyed id) q f xs (λ y. rw (keep y) refl) in
          elim (Bool-cases (q x)) [
            | inl e ↦ (f x, rw (found, h, Option.map, e) refl, move x e)
            | inr e ↦ (x, rw (found, h, Option.map, e) refl, stays x)
          ],
      Unique-update_rows q f xs keep,
    )

    -- An UPDATE by key that follows a read of the row.
    pub Grows-update_row :
        (id : String) (f : A → A) (xs : List A) (old : A)
        → ((x : A) → key (f x) ≡ key x)
        → find_row (keyed id) xs ≡ some old
        → Moves old (f old)
        → Grows xs (update_rows (keyed id) f xs)
    Grows-update_row id f xs old keep e move = (
      λ i x h.
          let found = find_row-update_rows (keyed i) (keyed id) f xs (λ y. rw (keep y) refl) in
          elim (Bool-cases (keyed id x)) [
            | inl hit ↦ (
              f x,
              rw (found, h, Option.map, hit) refl,
              subst (λ y. Moves y (f y)) (same i x h hit) move,
            )
            | inr miss ↦ (x, rw (found, h, Option.map, miss) refl, stays x)
          ],
      Unique-update_rows (keyed id) f xs keep,
    )
      where
        same : (i : String) (x : A) → find_row (keyed i) xs ≡ some x → keyed id x ≡ true → old ≡ x
        same i x h hit =
            let at_i : key x ≡ i = (str_eq_iff (key x) i).0 (find_row_holds (keyed i) xs x h) in
            let at_id : key x ≡ id = (str_eq_iff (key x) id).0 hit in
            let reached : find_row (keyed id) xs ≡ some x =
              subst (λ k. find_row (keyed k) xs ≡ some x) (sym at_i ∙ at_id) h in
            ground (arith, e, reached)

    -- An INSERT under a new key.
    pub Grows-append :
        (xs : List A) (y : A) → find_row (keyed (key y)) xs ≡ none → Grows xs (xs ++ y ∷ [])
    Grows-append xs y new =
        (λ id x h. (x, find_row-append (keyed id) xs y x h, stays x), λ d. Unique-append xs y d new)
