-- ===== src/Common/Stamps.antt =====
-- The order of instants as the database sees it: ts of backend/internal/store/store.go stores the
-- text that RFC3339Nano gives, and the statements compare these texts byte by byte.
use Prim.Native.Nat.{ℕ, zero, suc, ◌+◌, ◌/◌, ◌%◌, ◌^◌, ◌≤◌}
use mathlib.Core.Path.{◌≡◌, refl}
use mathlib.Core.Bool.{Bool, true, false, ◌&&◌, ◌||◌}
use mathlib.Core.List.{List, [], ◌∷◌}
use native.Mathlib.Omega.{arith}
use server_cli.Common.Tests.{ltb, ◌==◌, if◌then◌else◌}

-- The order of two texts, given by their characters' codes.
unfoldable pub codes_before : List ℕ → List ℕ → Bool
codes_before [] [] = false
codes_before [] (d ∷ ds) = true
codes_before (c ∷ cs) [] = false
codes_before (c ∷ cs) (d ∷ ds) = ltb c d || (c == d && codes_before cs ds)

-- The digits of a fraction of that many places without the zeros at its end, then the letter Z.
unfoldable pub fraction : ℕ → ℕ → List ℕ
fraction zero n = 90 ∷ []
fraction (suc k) n =
    let rest = fraction k (n % 10 ^ k) in if n == 0 then 90 ∷ [] else (48 + n / 10 ^ k) ∷ rest

-- What follows the seconds in the text: a point and the digits of the nanoseconds, where they are
-- not zero, and the letter Z.
unfoldable pub after_seconds : ℕ → List ℕ
after_seconds n = if n == 0 then 90 ∷ [] else 46 ∷ fraction 9 n

abbrev pub second_of : ℕ → ℕ
second_of t = t / 1_000_000_000

-- Does the text of `t` sort before that of `u`? Up to its seconds the text has a fixed width.
unfoldable pub stamp_before : ℕ → ℕ → Bool
stamp_before t u =
    ltb (second_of t) (second_of u)
    || (second_of t == second_of u
        && codes_before (after_seconds (t % 1_000_000_000)) (after_seconds (u % 1_000_000_000)))

pub codes_before_irrefl : (cs : List ℕ) → codes_before cs cs ≡ false
unfolding codes_before
codes_before_irrefl [] = refl
codes_before_irrefl (c ∷ cs) = ground (arith, codes_before_irrefl cs)

codes_before_asym : (cs ds : List ℕ) → codes_before cs ds ≡ true → codes_before ds cs ≡ false
unfolding codes_before
codes_before_asym [] [] h = refl
codes_before_asym [] (d ∷ ds) h = refl
codes_before_asym (c ∷ cs) [] h = ground arith
codes_before_asym (c ∷ cs) (d ∷ ds) h = ground (arith, codes_before_asym cs ds)

-- What does not sort before `ds`, which does not sort before `es`, does not sort before `es`.
codes_before_trans :
    (cs ds es : List ℕ)
    → codes_before cs ds ≡ false
    → codes_before ds es ≡ false
    → codes_before cs es ≡ false
unfolding codes_before
codes_before_trans [] [] es h k = k
codes_before_trans [] (d ∷ ds) es h k = ground arith
codes_before_trans (c ∷ cs) ds [] h k = refl
codes_before_trans (c ∷ cs) [] (e ∷ es) h k = ground arith
codes_before_trans (c ∷ cs) (d ∷ ds) (e ∷ es) h k = ground (arith, codes_before_trans cs ds es)

pub stamp_before_irrefl : (t : ℕ) → stamp_before t t ≡ false
unfolding stamp_before
stamp_before_irrefl t = ground (arith, codes_before_irrefl (after_seconds (t % 1_000_000_000)))

pub stamp_before_asym : (t u : ℕ) → stamp_before t u ≡ true → stamp_before u t ≡ false
unfolding stamp_before
stamp_before_asym t u h = ground (
  arith,
  codes_before_asym (after_seconds (t % 1_000_000_000)) (after_seconds (u % 1_000_000_000)),
)

pub stamp_before_trans :
    (t u v : ℕ) → stamp_before t u ≡ false → stamp_before u v ≡ false → stamp_before t v ≡ false
unfolding stamp_before
stamp_before_trans t u v h k = ground (
  arith,
  codes_before_trans (after_seconds (t % 1_000_000_000)) (after_seconds (u % 1_000_000_000))
      (after_seconds (v % 1_000_000_000)),
)

-- A text that does not sort before another is of no earlier second.
pub stamp_before_second : (t u : ℕ) → stamp_before t u ≡ false → second_of u ≤ second_of t
unfolding stamp_before
stamp_before_second t u h = ground arith
