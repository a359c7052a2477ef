-- ===== src/Base/Json.antt =====
-- Values of `unknown` type: what `JSON.parse` returns, and `undefined` and bigints.
use Prim.Native.Nat.{ℕ, ◌+◌}
use Prim.Native.String.{String}
use mathlib.Core.Bool.{Bool, true, false}
use mathlib.Core.Option.{Option, none, some}
use mathlib.Core.List.{List, [], ◌∷◌}
use mathlib.Core.Path.{◌≡◌, refl}
use native.Mathlib.Omega.{arith}
use text.Mathlib.TextEquality.{eq_iff}
use text.Mathlib.Text.{◌==◌}
use symm.Base.Tests.{if◌then◌else◌}
use symm.Base.Maps.{Dict}
use symm.Base.Number.{ℤ, Number, finite, nan, pos, int_eq}
use symm.Base.Text.{decimal}

mutual
  pub data Json : Type 0 where
    undefined null : Json
    bool : Bool → Json
    num : Number → Json
    bigint : ℤ → Json
    str : String → Json
    arr : Items → Json
    obj : Fields → Json

  pub data Items : Type 0 where
    nil : Items
    cons : Json → Items → Items

  pub data Fields : Type 0 where
    end : Fields
    field : String → Json → Fields → Fields

abbrev pub items : Items → List Json
items nil = []
items (cons v vs) = v ∷ items vs

-- `Object.entries` of an object
abbrev pub entries : Fields → Dict Json
entries end = []
entries (field k v fs) = (k, v) ∷ entries fs

-- `Object.entries` of an array, from an index on
abbrev pub indexed : ℕ → Items → Dict Json
indexed i nil = []
indexed i (cons v vs) = (decimal i, v) ∷ indexed (i + 1) vs

-- `o[name]`
abbrev pub get : String → Fields → Json
get name end = undefined
get name (field k v fs) = if k == name then v else get name fs

-- `{ ...o, [name]: v }`
abbrev pub put : String → Json → Fields → Fields
put name v end = field name v end
put name v (field k w fs) = if k == name then field k v fs else field k w (put name v fs)

pub get-put :
    (name other : String) (v : Json) (fs : Fields)
    → get other (put name v fs) ≡ (if name == other then v else get other fs)
get-put name other v end = refl
get-put name other v (field k w fs) =
    ground (arith, eq_iff name other, eq_iff k name, eq_iff k other, get-put name other v fs)

-- `typeof v === "string" ? v : ""`
abbrev pub string_or_empty : Json → String
string_or_empty (str s) = s
string_or_empty _ = ""

-- The fields of a value that is an object, and neither `null` nor an array.
abbrev pub plain_object : Json → Option Fields
plain_object (obj fs) = some fs
plain_object _ = none

abbrev pub is_nonzero : ℤ → Bool
is_nonzero n = if int_eq n (pos 0) then false else true

-- Is a value true as a condition?
abbrev pub is_truthy : Json → Bool
is_truthy undefined = false
is_truthy null = false
is_truthy (bool b) = b
is_truthy (str s) = if s == "" then false else true
is_truthy (bigint n) = is_nonzero n
is_truthy (num (finite n)) = is_nonzero n
is_truthy (num nan) = false
is_truthy _ = true
