-- ===== src/Base/Prefixes.antt =====
-- What `startsWith` and `slice` tell of a text.
use Prim.Native.Char.{Char, code}
use Prim.Native.String
use Prim.Native.String.{String}
use mathlib.Core.Path.{◌≡◌, refl, sym, ◌∙◌}
use mathlib.Core.Option.{none, some}
use mathlib.Core.Logic.{inl, inr}
use native.Mathlib.Omega.{arith}
use text.Mathlib.TextEquality.{Char-path}
use text.Mathlib.TextLemmas.{nil-append, cons-append}
use symm.Base.Tests.{value-eq_of_some, eqb, is_some, Bool-cases, none-ne-some}
use symm.Base.Text.{starts_with, after_prefix}

pub starts_with-after_prefix :
    (s prefix : String) → starts_with s prefix ≡ is_some (after_prefix s prefix)
starts_with-after_prefix s String.[] = refl
starts_with-after_prefix String.[] (String.◌∷◌ p ps) = refl
starts_with-after_prefix (String.◌∷◌ c s) (String.◌∷◌ p ps) =
    elim (Bool-cases (eqb (code c) (code p))) [
      | inl same ↦ rw same (starts_with-after_prefix s ps)
      | inr other ↦ rw other refl
    ]

-- What is left after a prefix stands after it.
pub after_prefix-eq :
    (s prefix rest : String) → after_prefix s prefix ≡ some rest → s ≡ String.◌++◌ prefix rest
after_prefix-eq s String.[] rest e = value-eq_of_some e ∙ sym (nil-append rest)
after_prefix-eq String.[] (String.◌∷◌ p ps) rest e = cc
after_prefix-eq (String.◌∷◌ c s) (String.◌∷◌ p ps) rest e =
    elim (Bool-cases (eqb (code c) (code p))) [
      | inl same ↦
          let chars : c ≡ p = Char-path c p (ground (arith, same)) in
          let left : s ≡ String.◌++◌ ps rest = after_prefix-eq s ps rest (rw same at e) in
          (λ i. String.◌∷◌ (chars i) (left i)) ∙ sym (cons-append p ps rest)
      | inr other ↦ absurd (none-ne-some (rw other at e))
    ]

-- Nothing starts with itself and more.
pub after_prefix-longer :
    (s : String) (c : Char) (rest : String)
    → after_prefix s (String.◌++◌ s (String.◌∷◌ c rest)) ≡ none
after_prefix-longer String.[] c rest = rw nil-append refl
after_prefix-longer (String.◌∷◌ d s) c rest =
    rw cons-append (ground (arith, after_prefix-longer s c rest))
