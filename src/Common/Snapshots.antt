-- ===== src/Common/Snapshots.antt =====
-- Rows that were read from a table with a primary key, and that a loop writes back one by one.
use mathlib.Core.Path.{◌≡◌, refl, sym, ◌∙◌, subst}
use mathlib.Core.Bool.{Bool, true, false}
use mathlib.Core.Logic.{inl, inr}
use mathlib.Core.Option
use mathlib.Core.Option.{Option, none, some}
use mathlib.Core.List.{List, [], ◌∷◌}
use native.Mathlib.Omega.{arith}
use Prim.Native.String.{String}
use server_cli.Common.Tests.{if◌then◌else◌, Bool-cases}
use server_cli.Common.Rows.{
  All, All-impl, is_some, find_row, find_row-update_rows, select_rows, update_rows,
}
use server_cli.Common.Texts.{str_eq, str_eq_iff, str_eq_refl}
use server_cli.Common.Keyed.{find_row_step, keyed, Unique}

module _ {ℓ} {A : Type ℓ} where
  find_row_skip :
      (p : A → Bool) (x : A) (xs : List A) → p x ≡ false → find_row p (x ∷ xs) ≡ find_row p xs
  unfolding find_row
  find_row_skip p x xs h = rw h refl

  select_rows_hit :
      (q : A → Bool) (x : A) (xs : List A)
      → q x ≡ true
      → select_rows q (x ∷ xs) ≡ x ∷ select_rows q xs
  unfolding select_rows
  select_rows_hit q x xs e = rw e refl

  select_rows_miss :
      (q : A → Bool) (x : A) (xs : List A) → q x ≡ false → select_rows q (x ∷ xs) ≡ select_rows q xs
  unfolding select_rows
  select_rows_miss q x xs e = rw e refl

  -- What is found nowhere is found in no selection.
  pub find_row-select_rows-none :
      (p q : A → Bool) (xs : List A) → find_row p xs ≡ none → find_row p (select_rows q xs) ≡ none
  unfolding select_rows
  find_row-select_rows-none p q [] h = h
  find_row-select_rows-none p q (x ∷ xs) h =
      let (miss, rest) = find_row_step p x xs h in
      let later = find_row-select_rows-none p q xs rest in
      elim (Bool-cases (q x)) [
        | inl e ↦ rw e (find_row_skip p x (select_rows q xs) miss ∙ later)
        | inr e ↦ rw e later
      ]

module _ {ℓ} {A : Type ℓ} (key : A → String) where
  -- Each of these rows is the one that the table has under its key.
  abbrev pub Standing : List A → List A → Type ℓ
  Standing xs ys = All (λ y. find_row (keyed key (key y)) xs ≡ some y) ys

  pub Unique-select_rows :
      (q : A → Bool) (xs : List A) → Unique key xs → Unique key (select_rows q xs)
  unfolding select_rows
  Unique-select_rows q [] d = tt
  Unique-select_rows q (x ∷ xs) d = elim (Bool-cases (q x)) [
    | inl e ↦
        rw e (find_row-select_rows-none (keyed key (key x)) q xs d.0, Unique-select_rows q xs d.1)
    | inr e ↦ rw e (Unique-select_rows q xs d.1)
  ]

  -- A row that the table has under its key has another key than a row in front that is unique.
  Standing-cons :
      (x : A) (xs ys : List A)
      → find_row (keyed key (key x)) xs ≡ none
      → Standing xs ys
      → Standing (x ∷ xs) ys
  Standing-cons x xs [] new s = tt
  Standing-cons x xs (y ∷ ys) new s =
      (find_row_skip (keyed key (key y)) x xs other ∙ s.0, Standing-cons x xs ys new s.1)
    where
      other : keyed key (key y) x ≡ false
      other = elim (Bool-cases (str_eq (key x) (key y))) [
        | inr e ↦ e
        | inl e ↦
            let same : key x ≡ key y = (str_eq_iff (key x) (key y)).0 e in
            let found : find_row (keyed key (key x)) xs ≡ some y =
              subst (λ k. find_row (keyed key k) xs ≡ some y) (sym same) s.0 in
            ground (arith, found, new)
      ]

  pub select_rows-Standing :
      (q : A → Bool) (xs : List A) → Unique key xs → Standing xs (select_rows q xs)
  unfolding select_rows find_row
  select_rows-Standing q [] d = tt
  select_rows-Standing q (x ∷ xs) d =
      let rest = Standing-cons x xs (select_rows q xs) d.0 (select_rows-Standing q xs d.1) in
      elim (Bool-cases (q x)) [
        | inl e ↦ rw e (rw (str_eq_refl (key x)) refl, rest)
        | inr e ↦ rw e rest
      ]

  -- An UPDATE of one row leaves the other rows standing.
  pub Standing-update_row :
      (id : String) (f : A → A) (xs ys : List A)
      → ((x : A) → key (f x) ≡ key x)
      → find_row (keyed key id) ys ≡ none
      → Standing xs ys
      → Standing (update_rows (keyed key id) f xs) ys
  Standing-update_row id f xs [] keep new s = tt
  Standing-update_row id f xs (y ∷ ys) keep new s =
      let (miss, rest) = find_row_step (keyed key id) y ys new in
      (found ∙ rw (s.0, Option.map, miss) refl, Standing-update_row id f xs ys keep rest s.1)
    where
      found :
          find_row (keyed key (key y)) (update_rows (keyed key id) f xs)
          ≡ Option.map (λ x. if keyed key id x then f x else x) (find_row (keyed key (key y)) xs)
      found = find_row-update_rows (keyed key (key y)) (keyed key id) f xs (λ x. rw (keep x) refl)

  found_first : (x : A) (xs : List A) → find_row (keyed key (key x)) (x ∷ xs) ≡ some x
  unfolding find_row
  found_first x xs = rw (str_eq_refl (key x)) refl

  -- One of these rows has the key of `x`.
  abbrev pub Covers : List A → A → Type 0
  Covers ys x = is_some (find_row (keyed key (key x)) ys) ≡ true

  pub Covers-cons : (y : A) (ys : List A) (x : A) → Covers ys x → Covers (y ∷ ys) x
  unfolding find_row
  Covers-cons y ys x c = ground (arith, c)

  pub Covers-tail :
      (y : A) (ys : List A) (x : A)
      → str_eq (key y) (key x) ≡ false
      → Covers (y ∷ ys) x
      → Covers ys x
  unfolding find_row
  Covers-tail y ys x other c = ground (arith, other, c)

  -- A selection covers every row that it selects.
  pub select_rows-Covers :
      (q : A → Bool) (xs : List A) → All (λ x. q x ≡ true → Covers (select_rows q xs) x) xs
  unfolding find_row
  select_rows-Covers q [] = tt
  select_rows-Covers q (x ∷ xs) = elim (Bool-cases (q x)) [
    | inl e ↦
        subst (λ zs. All (λ y. q y ≡ true → Covers zs y) (x ∷ xs)) (sym (select_rows_hit q x xs e))
          (
            λ h. rw (str_eq_refl (key x)) refl,
            All-impl xs (λ y c h. Covers-cons x (select_rows q xs) y (c h))
                (select_rows-Covers q xs),
          )
    | inr e ↦
        subst (λ zs. All (λ y. q y ≡ true → Covers zs y) (x ∷ xs)) (sym (select_rows_miss q x xs e))
          (λ h. absurd (ground (arith, h, e)), select_rows-Covers q xs)
  ]

  others_miss :
      (id : String) (xs : List A)
      → find_row (keyed key id) xs ≡ none
      → All (λ y. str_eq id (key y) ≡ false) xs
  others_miss id [] h = tt
  others_miss id (y ∷ ys) h =
      let (miss, rest) = find_row_step (keyed key id) y ys h in
      (ground (arith, miss, str_eq_iff id (key y), str_eq_iff (key y) id), others_miss id ys rest)

  -- A selection from a table with distinct keys has each row that it selects under its key.
  pub select_rows-finds :
      (q : A → Bool) (xs : List A)
      → Unique key xs
      → All (λ x. q x ≡ true → find_row (keyed key (key x)) (select_rows q xs) ≡ some x) xs
  select_rows-finds q [] d = tt
  select_rows-finds q (x ∷ xs) d =
      let rest = select_rows-finds q xs d.1 in
      elim (Bool-cases (q x)) [
        | inl e ↦
            subst (λ zs. All (λ y. q y ≡ true → find_row (keyed key (key y)) zs ≡ some y) (x ∷ xs))
              (sym (select_rows_hit q x xs e))
              (λ h. found_first x (select_rows q xs), both xs rest (others_miss (key x) xs d.0))
        | inr e ↦
            subst (λ zs. All (λ y. q y ≡ true → find_row (keyed key (key y)) zs ≡ some y) (x ∷ xs))
              (sym (select_rows_miss q x xs e)) (λ h. absurd (ground (arith, h, e)), rest)
      ]
    where
      both :
          (ys : List A)
          → All (λ y. q y ≡ true → find_row (keyed key (key y)) (select_rows q xs) ≡ some y) ys
          → All (λ y. str_eq (key x) (key y) ≡ false) ys
          → All (λ y. q y ≡ true → find_row (keyed key (key y)) (x ∷ select_rows q xs) ≡ some y) ys
      both [] a b = tt
      both (y ∷ ys) a b =
          (λ h. find_row_skip (keyed key (key y)) x (select_rows q xs) b.0 ∙ a.0 h, both ys a.1 b.1)

  -- Each row of a table with distinct keys is the one under its key.
  pub Unique-Standing : (xs : List A) → Unique key xs → Standing xs xs
  Unique-Standing [] d = tt
  Unique-Standing (x ∷ xs) d =
      (found_first x xs, Standing-cons x xs xs d.0 (Unique-Standing xs d.1))
