-- ===== src/Base/Sorting.antt =====
-- `sort()` of texts: the sorted rearrangement, which the order by code units makes unique.
use Prim.Native.String.{String}
use mathlib.Core.Path.{◌≡◌, refl}
use mathlib.Core.Logic.{inl, inr}
use mathlib.Core.Bool.{Bool, true, false}
use mathlib.Core.List.{List, [], ◌∷◌, Perm}
use mathlib.Core.List.Perm
use native.Mathlib.Omega.{arith}
use symm.Base.Tests.{if◌then◌else◌, Bool-cases}
use symm.Base.Lists.{All, any}
use symm.Base.Text.{text_le, units_le, units}

insert_sorted : String → List String → List String
insert_sorted x [] = x ∷ []
insert_sorted x (y ∷ ys) = if text_le x y then x ∷ y ∷ ys else y ∷ insert_sorted x ys

unfoldable pub sort : List String → List String
unfolding insert_sorted
sort [] = []
sort (x ∷ xs) = insert_sorted x (sort xs)

abbrev pub IsSorted : List String → Type 0
IsSorted [] = Unit
IsSorted (x ∷ xs) = All (λ y. text_le x y ≡ true) xs × IsSorted xs

insert_sorted-Perm : (x : String) (ys : List String) → Perm (insert_sorted x ys) (x ∷ ys)
unfolding insert_sorted
insert_sorted-Perm x [] = Perm.refl (x ∷ [])
insert_sorted-Perm x (y ∷ ys) = elim (Bool-cases (text_le x y)) [
  | inl le ↦ rw le (Perm.refl (x ∷ y ∷ ys))
  | inr gt ↦ rw gt (Perm.trans (Perm.cons y (insert_sorted-Perm x ys)) (Perm.swap x y ys))
]

-- Sorting rearranges.
pub sort-Perm : (xs : List String) → Perm (sort xs) xs
unfolding sort
sort-Perm [] = Perm.refl []
sort-Perm (x ∷ xs) = Perm.trans (insert_sorted-Perm x (sort xs)) (Perm.cons x (sort-Perm xs))

pub units_le_total :
    (xs ys : List Prim.Native.Nat.ℕ) → units_le xs ys ≡ false → units_le ys xs ≡ true
units_le_total [] ys h = cc
units_le_total (x ∷ xs) [] h = refl
units_le_total (x ∷ xs) (y ∷ ys) h = ground (arith, units_le_total xs ys)

pub units_le_trans :
    (xs ys zs : List Prim.Native.Nat.ℕ)
    → units_le xs ys ≡ true
    → units_le ys zs ≡ true
    → units_le xs zs ≡ true
units_le_trans [] ys zs h k = refl
units_le_trans (x ∷ xs) [] zs h k = cc
units_le_trans (x ∷ xs) (y ∷ ys) [] h k = cc
units_le_trans (x ∷ xs) (y ∷ ys) (z ∷ zs) h k = ground (arith, units_le_trans xs ys zs)

All-below :
    (x y : String) (zs : List String)
    → text_le x y ≡ true
    → All (λ z. text_le y z ≡ true) zs
    → All (λ z. text_le x z ≡ true) zs
All-below x y [] h all = tt
All-below x y (z ∷ zs) h (here, rest) =
    (units_le_trans (units x) (units y) (units z) h here, All-below x y zs h rest)

insert_sorted-All :
    (P : String → Type 0) (x : String) (ys : List String)
    → P x
    → All P ys
    → All P (insert_sorted x ys)
unfolding insert_sorted
insert_sorted-All P x [] p h = (p, tt)
insert_sorted-All P x (y ∷ ys) p (here, rest) = elim (Bool-cases (text_le x y)) [
  | inl le ↦ rw le (p, (here, rest))
  | inr gt ↦ rw gt (here, insert_sorted-All P x ys p rest)
]

insert_sorted-IsSorted :
    (x : String) (ys : List String) → IsSorted ys → IsSorted (insert_sorted x ys)
unfolding insert_sorted
insert_sorted-IsSorted x [] h = (tt, tt)
insert_sorted-IsSorted x (y ∷ ys) (least, sorted) = elim (Bool-cases (text_le x y)) [
  | inl le ↦ rw le ((le, All-below x y ys le least), (least, sorted))
  | inr gt ↦ rw gt (
    insert_sorted-All (λ z. text_le y z ≡ true) x ys (units_le_total (units x) (units y) gt) least,
    insert_sorted-IsSorted x ys sorted,
  )
]

pub sort-IsSorted : (xs : List String) → IsSorted (sort xs)
unfolding sort
sort-IsSorted [] = tt
sort-IsSorted (x ∷ xs) = insert_sorted-IsSorted x (sort xs) (sort-IsSorted xs)

-- What holds of every text still does when they are sorted.
pub sort-All : (P : String → Type 0) (xs : List String) → All P xs → All P (sort xs)
unfolding sort
sort-All P [] h = tt
sort-All P (x ∷ xs) (here, rest) = insert_sorted-All P x (sort xs) here (sort-All P xs rest)

any-insert_sorted :
    (p : String → Bool) (x : String) (ys : List String)
    → any p (insert_sorted x ys) ≡ (if p x then true else any p ys)
unfolding insert_sorted
any-insert_sorted p x [] = refl
any-insert_sorted p x (y ∷ ys) = ground (arith, any-insert_sorted p x ys)

-- Sorting keeps which texts are there.
pub any-sort : (p : String → Bool) (xs : List String) → any p (sort xs) ≡ any p xs
unfolding sort
any-sort p [] = refl
any-sort p (x ∷ xs) = ground (arith, any-insert_sorted p x (sort xs), any-sort p xs)
