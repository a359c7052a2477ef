-- ===== src/Base/Text.antt =====
-- Texts by characters: the string methods that the program uses.
use Prim.Native.Nat.{ℕ, zero, suc, ◌+◌, ◌-◌, ◌/◌, ◌%◌}
use Prim.Native.Char.{Char, code}
use Prim.Native.String
use Prim.Native.String.{String}
use mathlib.Core.Path.{◌≡◌, refl, ap, ◌∙◌}
use text.Mathlib.TextLemmas.{nil-append, cons-append}
use native.Mathlib.Omega.{arith}
use mathlib.Core.Option.{Option, none, some}
use mathlib.Core.Bool.{Bool, true, false, ◌&&◌}
use mathlib.Core.List.{List, [], ◌∷◌, ◌++◌}
use text.Mathlib.Text.{◌==◌}
use symm.Base.Tests.{if◌then◌else◌, eqb, ltb, leb, is_some}

-- `s.startsWith(prefix)`
abbrev pub starts_with : String → String → Bool
starts_with s String.[] = true
starts_with String.[] (String.◌∷◌ p ps) = false
starts_with (String.◌∷◌ c s) (String.◌∷◌ p ps) =
    if eqb (code c) (code p) then starts_with s ps else false

-- `s.slice(prefix.length)` where `s.startsWith(prefix)`
abbrev pub after_prefix : String → String → Option String
after_prefix s String.[] = some s
after_prefix String.[] (String.◌∷◌ p ps) = none
after_prefix (String.◌∷◌ c s) (String.◌∷◌ p ps) =
    if eqb (code c) (code p) then after_prefix s ps else none

pub after_prefix-append :
    (prefix rest : String) → after_prefix (String.◌++◌ prefix rest) prefix ≡ some rest
after_prefix-append String.[] rest = ap some (nil-append rest)
after_prefix-append (String.◌∷◌ p ps) rest =
    ap (λ s. after_prefix s (String.◌∷◌ p ps)) (cons-append p ps rest)
    ∙ ground (arith, after_prefix-append ps rest)

-- `s.slice(s.indexOf(needle) + needle.length)`, or none where `needle` does not occur
abbrev pub after_first : String → String → Option String
after_first needle String.[] = after_prefix "" needle
after_first needle (String.◌∷◌ c s) = elim (after_prefix (String.◌∷◌ c s) needle) [
  | some rest ↦ some rest
  | none ↦ after_first needle s
]

-- `s.includes(needle)`
abbrev pub includes : String → String → Bool
includes s needle = is_some (after_first needle s)

-- `s` without a suffix
abbrev pub before_suffix : String → String → Option String
before_suffix suffix String.[] = if suffix == "" then some "" else none
before_suffix suffix (String.◌∷◌ c s) =
    if String.◌∷◌ c s == suffix
    then some ""
    else elim (before_suffix suffix s) [ none ↦ none | some rest ↦ some (String.◌∷◌ c rest) ]

-- `[0-9]`
abbrev pub is_digit : Char → Bool
is_digit c = leb b'0' (code c) && leb (code c) b'9'

-- `s.endsWith(suffix)`
abbrev pub ends_with : String → String → Bool
ends_with String.[] t = t == ""
ends_with (String.◌∷◌ c s) t = if String.◌∷◌ c s == t then true else ends_with s t

abbrev pub prepend : Char → List String → List String
prepend c [] = String.◌∷◌ c "" ∷ []
prepend c (part ∷ parts) = String.◌∷◌ c part ∷ parts

-- `s.split("/")`
abbrev pub split_slash : String → List String
split_slash String.[] = "" ∷ []
split_slash (String.◌∷◌ c s) =
    if eqb (code c) b'/' then "" ∷ split_slash s else prepend c (split_slash s)

-- `filter(Boolean)` of texts
abbrev pub non_empty : List String → List String
non_empty [] = []
non_empty (s ∷ ss) = if s == "" then non_empty ss else s ∷ non_empty ss

-- `ss.join("/")`
abbrev pub join_slash : List String → String
join_slash [] = ""
join_slash (s ∷ []) = s
join_slash (s ∷ t ∷ ss) = String.◌++◌ s (String.◌++◌ "/" (join_slash (t ∷ ss)))

-- The UTF-16 code units, by which `sort()` compares texts.
abbrev pub units : String → List ℕ
units String.[] = []
units (String.◌∷◌ c s) =
    (if ltb (code c) 0x10000
      then code c ∷ []
      else (0xd800 + (code c - 0x10000) / 0x400) ∷ (0xdc00 + (code c - 0x10000) % 0x400) ∷ [])
    ++ units s

-- Not after, in the order of code units.
abbrev pub units_le : List ℕ → List ℕ → Bool
units_le [] ys = true
units_le (x ∷ xs) [] = false
units_le (x ∷ xs) (y ∷ ys) = if ltb x y then true else if eqb x y then units_le xs ys else false

abbrev pub text_le : String → String → Bool
text_le s t = units_le (units s) (units t)

abbrev digit : ℕ → String
digit zero = "0"
digit (suc zero) = "1"
digit (suc (suc zero)) = "2"
digit (suc (suc (suc zero))) = "3"
digit (suc (suc (suc (suc zero)))) = "4"
digit (suc (suc (suc (suc (suc zero))))) = "5"
digit (suc (suc (suc (suc (suc (suc zero)))))) = "6"
digit (suc (suc (suc (suc (suc (suc (suc zero))))))) = "7"
digit (suc (suc (suc (suc (suc (suc (suc (suc zero)))))))) = "8"
digit _ = "9"

-- The digits of a number below `10 ^ fuel`.
decimal_fuel : ℕ → ℕ → String
decimal_fuel zero n = ""
decimal_fuel (suc fuel) n =
    let rest = String.◌++◌ (decimal_fuel fuel (n / 10)) (digit (n % 10)) in
    if ltb n 10 then digit n else rest

-- `String(n)` of a natural number
unfoldable pub decimal : ℕ → String
unfolding decimal_fuel
decimal n = decimal_fuel (suc n) n

decimal_test : decimal 2048 ≡ "2048"
unfolding decimal
decimal_test = refl
