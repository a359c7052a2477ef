-- ===== src/Value/Tests.antt =====
-- Runs of value.ts.
use symm.Base.{
  ℕ, String, true, false, Option, none, some, List, [], ◌∷◌, ◌≡◌, refl, or_else, if◌then◌else◌, any,
  ◌==◌, lookup, insert,
}
use symm.Base.Number.{pos, int_eq, of_ℕ}
use symm.Base.Json.{Json, num, arr, nil, cons}
use symm.Value.{
  Value, merge_workspace_aggregate, preserve_lit_layers, metrics, lit_layer_keys,
  layer_relative_to_prefix,
}
use symm.Value.Layers.{layer_at}
use symm.Value.Merge.{merge_workspace_aggregate-union}
use symm.Value.Lit.{preserve_lit_layers-keeps, brighter}
use symm.Value.Metrics.{AreFinite, metrics-AreFinite}

-- A reader for which one byte is an empty array, two an array of numbers, and three no JSON.
abbrev decode : List ℕ → Option Json
decode (b ∷ []) = some (arr nil)
decode (b ∷ c ∷ []) = some (arr (cons (num (of_ℕ b)) (cons (num (of_ℕ c)) nil)))
decode _ = none

abbrev frame : List String → List (Option (List ℕ)) → Value
frame index layers = record {
  id = "";
  epoch = pos 1;
  tick = pos 5;
  seq_idx = pos 0;
  timestamp = pos 0;
  origin = "grid";
  role = "";
  scope = "";
  prefix = "w";
  layers = layers;
  index = index;
}

abbrev old : Value
old = frame ("w/lit" ∷ "w/price" ∷ []) (some (1 ∷ 2 ∷ []) ∷ some (3 ∷ 4 ∷ []) ∷ [])

abbrev new : Value
new = frame ("w/lit" ∷ "w/cvd/net/drive" ∷ []) (some (9 ∷ []) ∷ some (7 ∷ 8 ∷ []) ∷ [])

merge_workspace_aggregate-union_example :
    (int_eq old.tick new.tick ≡ true
      → layer_at "price" (merge_workspace_aggregate (some old) new)
        ≡ or_else (layer_at "price" new) (layer_at "price" old))
    × (int_eq old.tick new.tick ≡ false → merge_workspace_aggregate (some old) new ≡ new)
merge_workspace_aggregate-union_example = merge_workspace_aggregate-union old new "price"

preserve_lit_layers-keeps_example :
    ((old.origin == new.origin) ≡ true
      → layer_at "lit" (preserve_lit_layers decode (some old) new) ≡ (
          if any (λ key. key == "lit") lit_layer_keys
          then brighter decode old "lit" (layer_at "lit" new)
          else layer_at "lit" new))
    × ((old.origin == new.origin) ≡ false → preserve_lit_layers decode (some old) new ≡ new)
preserve_lit_layers-keeps_example = preserve_lit_layers-keeps decode old new "lit"

kept : layer_at "lit" (preserve_lit_layers decode (some old) new) ≡ some (some (1 ∷ 2 ∷ []))
unfolding layer_at preserve_lit_layers lookup layer_relative_to_prefix insert
kept = refl

metrics-AreFinite_example : AreFinite (metrics decode new)
metrics-AreFinite_example = metrics-AreFinite decode new

-- Three names share two numbers: the last has none.
spread :
    (lookup "net" (metrics decode new) ≡ some (of_ℕ 8))
    × (lookup "drive" (metrics decode new) ≡ none)
unfolding metrics lookup insert layer_relative_to_prefix
spread = (refl, refl)
