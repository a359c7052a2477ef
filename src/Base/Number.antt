-- ===== src/Base/Number.antt =====
-- JavaScript numbers. Every finite double is a whole multiple of 2 ^ -1074, so a finite number is
-- an integer that counts those units, and comparisons and truncation are exact. Sums and quotients
-- round, so code that computes them takes them as parameters. The two zeros are one: nothing in the
-- program tells them apart.
use Prim.Native.Nat.{ℕ, suc, ◌*◌, ◌/◌, ◌^◌}
use mathlib.Core.Bool.{Bool, true, false}
use symm.Base.Tests.{ltb, eqb, if◌then◌else◌}

-- `negsuc n` is -(n + 1).
pub data ℤ : Type 0 where
  pos : ℕ → ℤ
  negsuc : ℕ → ℤ

-- `===`, `<` and `<=` of integers (and of bigints)
abbrev pub int_eq : ℤ → ℤ → Bool
int_eq (pos a) (pos b) = eqb a b
int_eq (negsuc a) (negsuc b) = eqb a b
int_eq (pos a) (negsuc b) = false
int_eq (negsuc a) (pos b) = false

abbrev pub int_lt : ℤ → ℤ → Bool
int_lt (pos a) (pos b) = ltb a b
int_lt (negsuc a) (negsuc b) = ltb b a
int_lt (pos a) (negsuc b) = false
int_lt (negsuc a) (pos b) = true

pub data Number : Type 0 where
  finite : ℤ → Number
  infinity minus_infinity nan : Number

abbrev pub unit : ℕ
unit = 2 ^ 1074

-- The number of a natural number that a double holds exactly.
abbrev pub of_ℕ : ℕ → Number
of_ℕ n = finite (pos (n * unit))

-- `Number.isFinite`
abbrev pub is_finite : Number → Bool
is_finite (finite n) = true
is_finite _ = false

-- `===`
abbrev pub number_eq : Number → Number → Bool
number_eq (finite a) (finite b) = int_eq a b
number_eq infinity infinity = true
number_eq minus_infinity minus_infinity = true
number_eq _ _ = false

-- `<`
abbrev pub number_lt : Number → Number → Bool
number_lt (finite a) (finite b) = int_lt a b
number_lt (finite a) infinity = true
number_lt minus_infinity (finite b) = true
number_lt minus_infinity infinity = true
number_lt _ _ = false

-- `<=`
abbrev pub number_le : Number → Number → Bool
number_le a b = if number_lt a b then true else number_eq a b

-- `Math.trunc` of a finite number, as an integer: towards zero.
abbrev pub trunc_units : ℤ → ℤ
trunc_units (pos n) = pos (n / unit)
trunc_units (negsuc n) = negate (suc n / unit)
  where
    negate : ℕ → ℤ
    negate ℕ.zero = pos 0
    negate (suc k) = negsuc k
