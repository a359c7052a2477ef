-- ===== src/Base/Maps.antt =====
-- A `Map` (and a plain object of string keys) as an association list in insertion order: a write
-- to a key that is there keeps its place, a new key goes to the end.
use Prim.Native.String.{String}
use mathlib.Core.Path.{◌≡◌, refl, subst}
use mathlib.Core.Logic.{inl, inr}
use mathlib.Core.Bool.{Bool}
use mathlib.Core.Option.{Option, none, some}
use mathlib.Core.List.{List, [], ◌∷◌}
use native.Mathlib.Omega.{arith}
use text.Mathlib.Text.{◌==◌}
use text.Mathlib.TextEquality.{eq_iff}
use text.Mathlib.TextPositions.{eq_refl}
use symm.Base.Tests.{value-eq_of_some, if◌then◌else◌, is_some, Bool-cases}

abbrev pub Dict {ℓ} : Type ℓ → Type ℓ
Dict V = List (String × V)

module _ {ℓ} {V : Type ℓ} where
  unfoldable pub lookup : String → Dict V → Option V
  lookup key [] = none
  lookup key ((other, v) ∷ dict) = if other == key then some v else lookup key dict

  unfoldable pub insert : String → V → Dict V → Dict V
  insert key v [] = (key, v) ∷ []
  insert key v ((other, held) ∷ dict) =
      if other == key then (other, v) ∷ dict else (other, held) ∷ insert key v dict

  unfoldable pub delete : String → Dict V → Dict V
  delete key [] = []
  delete key ((other, held) ∷ dict) =
      if other == key then delete key dict else (other, held) ∷ delete key dict

  pub has : String → Dict V → Bool
  has key dict = is_some (lookup key dict)

  pub lookup-insert :
      (key other : String) (v : V) (dict : Dict V)
      → lookup other (insert key v dict) ≡ (if key == other then some v else lookup other dict)
  unfolding lookup insert
  lookup-insert key other v [] = refl
  lookup-insert key other v ((i, held) ∷ dict) =
      ground (arith, eq_iff key other, eq_iff i key, eq_iff i other, lookup-insert key other v dict)

  pub lookup-insert_self :
      (key : String) (v : V) (dict : Dict V) → lookup key (insert key v dict) ≡ some v
  lookup-insert_self key v dict = simp (lookup-insert, eq_refl)

  pub lookup-delete :
      (key other : String) (dict : Dict V)
      → lookup other (delete key dict) ≡ (if key == other then none else lookup other dict)
  unfolding lookup delete
  lookup-delete key other [] = ground arith
  lookup-delete key other ((i, held) ∷ dict) =
      ground (arith, eq_iff key other, eq_iff i key, eq_iff i other, lookup-delete key other dict)

  -- What holds of every value.
  abbrev pub Values {κ} : (V → Type κ) → Dict V → Type κ
  Values P [] = Unit
  Values P ((other, held) ∷ dict) = P held × Values P dict

  pub Values-lookup {κ} :
      (P : V → Type κ) (key : String) (dict : Dict V) {v : V}
      → Values P dict
      → lookup key dict ≡ some v
      → P v
  unfolding lookup
  Values-lookup P key [] h e = cc
  Values-lookup P key ((other, held) ∷ dict) {v} (here, rest) e = elim (Bool-cases (other == key)) [
    | inl hit ↦ subst P (value-eq_of_some (rw hit at e)) here
    | inr miss ↦ Values-lookup P key dict rest (rw miss at e)
  ]

  pub Values-insert {κ} :
      (P : V → Type κ) (key : String) (v : V) (dict : Dict V)
      → P v
      → Values P dict
      → Values P (insert key v dict)
  unfolding insert
  Values-insert P key v [] p h = (p, tt)
  Values-insert P key v ((other, held) ∷ dict) p (here, rest) = elim (Bool-cases (other == key)) [
    | inl hit ↦ rw hit (p, rest)
    | inr miss ↦ rw miss (here, Values-insert P key v dict p rest)
  ]

  pub Values-delete {κ} :
      (P : V → Type κ) (key : String) (dict : Dict V) → Values P dict → Values P (delete key dict)
  unfolding delete
  Values-delete P key [] h = tt
  Values-delete P key ((other, held) ∷ dict) (here, rest) = elim (Bool-cases (other == key)) [
    | inl hit ↦ rw hit (Values-delete P key dict rest)
    | inr miss ↦ rw miss (here, Values-delete P key dict rest)
  ]

  -- No key stands twice.
  abbrev pub IsMap : Dict V → Type ℓ
  IsMap [] = Unit
  IsMap ((key, v) ∷ dict) = (lookup key dict ≡ none) × IsMap dict

  pub IsMap-delete : (key : String) (dict : Dict V) → IsMap dict → IsMap (delete key dict)
  unfolding delete
  IsMap-delete key [] h = tt
  IsMap-delete key ((other, held) ∷ dict) (fresh, rest) = elim (Bool-cases (other == key)) [
    | inl hit ↦ rw hit (IsMap-delete key dict rest)
    | inr miss ↦ rw miss (ground (arith, lookup-delete key other dict), IsMap-delete key dict rest)
  ]

  pub IsMap-insert : (key : String) (v : V) (dict : Dict V) → IsMap dict → IsMap (insert key v dict)
  unfolding insert lookup
  IsMap-insert key v [] h = (refl, tt)
  IsMap-insert key v ((other, held) ∷ dict) (fresh, rest) = elim (Bool-cases (other == key)) [
    | inl hit ↦ rw hit (fresh, rest)
    | inr miss ↦ rw miss (
      ground (arith, lookup-insert key other v dict, eq_iff key other, eq_iff other key),
      IsMap-insert key v dict rest,
    )
  ]
