-- ===== src/Value.antt =====
-- frontend/src/types/value.ts: a frame of the hub, whose layers are JSON bytes at paths below a
-- prefix. `decode` is `tryDecodeJsonBytes` of frontend/src/lib/json-bytes.ts: none for bytes that
-- are no JSON. Its memo and the one of `readings` are keyed by arrays that nobody writes to, so they
-- are not seen here.
mod Tests
pub mod Layers
pub mod Merge
pub mod Lit
pub mod Metrics
use Prim.Native.String
use symm.Base.{
  ℕ, zero, suc, String, Bool, true, false, not, ◌&&◌, ◌||◌, Option, none, some, List, [], ◌∷◌, ◌++◌,
  map, ◌==◌, if◌then◌else◌, or_value, Dict, lookup, insert, any, is_some,
}
use symm.Base.Number.{ℤ, pos, int_eq, Number, is_finite}
use symm.Base.Text.{after_prefix, starts_with, split_slash, non_empty}
use symm.Base.Json.{Json, undefined, num, str, arr, Items, nil, cons, items}

-- A slot of `layers`; none is `undefined`, past the end.
abbrev pub Layer : Type 0
Layer = Option (List ℕ)

pub record Value : Type 0 where
  pub id : String
  pub epoch : ℤ
  pub tick : ℤ
  pub seq_idx : ℤ
  pub timestamp : ℤ
  pub origin : String
  pub role : String
  pub scope : String
  pub prefix : String
  pub layers : List Layer
  pub index : List String

-- The argument of the constructor.
pub record Init : Type 0 where
  pub id : Option String
  pub epoch : Option ℤ
  pub tick : Option ℤ
  pub seq_idx : Option ℤ
  pub timestamp : Option ℤ
  pub origin : Option String
  pub role : Option String
  pub scope : Option String
  pub prefix : Option String
  pub layers : Option (List Layer)
  pub index : Option (List String)

unfoldable pub construct : Init → Value
construct init = record {
  id = or_value init.id "";
  epoch = or_value init.epoch (pos 0);
  tick = or_value init.tick (pos 0);
  seq_idx = or_value init.seq_idx (pos 0);
  timestamp = or_value init.timestamp (pos 0);
  origin = or_value init.origin "";
  role = or_value init.role "";
  scope = or_value init.scope "";
  prefix = or_value init.prefix "";
  layers = or_value init.layers [];
  index = or_value init.index [];
}

-- The pairs `index[i]`, `layers[i]` that every loop visits.
unfoldable pub pairs : List String → List Layer → Dict Layer
pairs [] layers = []
pairs (path ∷ index) [] = (path, none) ∷ pairs index []
pairs (path ∷ index) (layer ∷ layers) = (path, layer) ∷ pairs index layers

abbrev pub below : String → String → String
below prefix key = String.◌++◌ prefix (String.◌++◌ "/" key)

-- `layerRelativeToPrefix`
unfoldable pub layer_relative_to_prefix : String → String → Option String
layer_relative_to_prefix index prefix = after_prefix index (String.◌++◌ prefix "/")

-- The loop that fills `byRelative`: a later layer replaces an earlier one.
unfoldable pub collect : String → Dict Layer → Dict Layer → Dict Layer
collect prefix [] table = table
collect prefix ((path, layer) ∷ rest) table = elim (layer_relative_to_prefix path prefix) [
  | none ↦ collect prefix rest table
  | some relative ↦ collect prefix rest (insert relative layer table)
]

-- `new Value({ …incoming, index, layers })` with the layers of a table
unfoldable pub rebuild : Value → Dict Layer → Value
rebuild incoming table = record incoming {
  index = map (λ e. below incoming.prefix (e.0)) table;
  layers = map (λ e. e.1) table;
}

-- `mergeWorkspaceAggregate`
unfoldable pub merge_workspace_aggregate : Option Value → Value → Value
unfolding collect pairs rebuild
merge_workspace_aggregate none incoming = incoming
merge_workspace_aggregate (some prior) incoming =
    let before = collect prior.prefix (pairs prior.index prior.layers) [] in
    let table = collect incoming.prefix (pairs incoming.index incoming.layers) before in
    if not (int_eq prior.tick incoming.tick)
    then incoming
    else elim table [ [] ↦ incoming | entry ∷ rest ↦ rebuild incoming (entry ∷ rest) ]

-- The inner loop of `preserveLitLayers`: the first layer of the prior frame at the key.
unfoldable pub first_at : String → String → Dict Layer → Layer
first_at prefix key [] = none
first_at prefix key ((path, layer) ∷ rest) = elim (layer_relative_to_prefix path prefix) [
  | none ↦ first_at prefix key rest
  | some relative ↦ if relative == key then layer else first_at prefix key rest
]

abbrev pub lit_layer_keys : List String
lit_layer_keys = "regions" ∷ "active" ∷ "lit" ∷ []

-- `Array.isArray(payload) ? payload[0] : payload`
abbrev pub first_of : Json → Json
first_of (arr nil) = undefined
first_of (arr (cons v vs)) = v
first_of payload = payload

-- The inner loop of `metrics`: one name for each number, to the shorter of the two.
unfoldable pub expand : List String → List Json → Dict Number → Dict Number
expand [] values out = out
expand (name ∷ names) [] out = out
expand (name ∷ names) (num n ∷ values) out =
    expand names values (if is_finite n then insert name n out else out)
expand (name ∷ names) (_ ∷ values) out = expand names values out

-- A payload read by its first element, under one name.
abbrev pub add_scalar : String → Json → Dict Number → Dict Number
add_scalar name (num n) out = if is_finite n then insert name n out else out
add_scalar name _ out = out

abbrev pub scalar_name : String → List String → String
scalar_name suffix (name ∷ []) = name
scalar_name suffix _ = suffix

abbrev pub has_several : List String → Bool
has_several (a ∷ b ∷ names) = true
has_several _ = false

-- One turn of the loop of `metrics`.
unfoldable pub add_metric : String → Json → Dict Number → Dict Number
unfolding expand
add_metric suffix payload out =
    let names = non_empty (split_slash suffix) in
    if suffix == "" then out else elim payload [
      | arr values ↦
          if has_several names
          then expand names (items values) out
          else add_scalar (scalar_name suffix names) (first_of (arr values)) out
      | other ↦ add_scalar (scalar_name suffix names) other out
    ]

unfoldable pub add_metrics : List (String × Json) → Dict Number → Dict Number
unfolding add_metric
add_metrics [] out = out
add_metrics ((suffix, payload) ∷ rest) out = add_metrics rest (add_metric suffix payload out)

-- `provenance()`
unfoldable pub add_texts : List (String × Json) → Dict String → Dict String
add_texts [] out = out
add_texts ((suffix, payload) ∷ rest) out = add_texts rest (elim (first_of payload) [
  | str text ↦ if suffix == "" then out else insert suffix text out
  | _ ↦ out
])

module _ (decode : List ℕ → Option Json) where
  abbrev pub try_decode : Layer → Option Json
  try_decode none = none
  try_decode (some bytes) = decode bytes

  -- `nonEmptyArrayLayer`, of a layer that may be missing
  unfoldable pub non_empty_array_layer : Layer → Bool
  non_empty_array_layer none = false
  non_empty_array_layer (some []) = false
  non_empty_array_layer (some (b ∷ bytes)) = elim (decode (b ∷ bytes)) [
    | some (arr (cons v vs)) ↦ true
    | _ ↦ false
  ]

  -- One turn of the loop over the lit keys.
  unfoldable pub keep_lit : Value → String → Dict Layer × Bool → Dict Layer × Bool
  unfolding first_at non_empty_array_layer pairs
  keep_lit prior key (table, changed) =
      let old = first_at prior.prefix key (pairs prior.index prior.layers) in
      if non_empty_array_layer (or_value (lookup key table) none)
      then (table, changed)
      else if non_empty_array_layer old
      then (insert key old table, true)
      else (table, changed)

  unfoldable pub keep_all_lit : Value → List String → Dict Layer × Bool → Dict Layer × Bool
  unfolding keep_lit
  keep_all_lit prior [] state = state
  keep_all_lit prior (key ∷ keys) state = keep_all_lit prior keys (keep_lit prior key state)

  -- `preserveLitLayers`
  unfoldable pub preserve_lit_layers : Option Value → Value → Value
  unfolding collect pairs rebuild keep_all_lit
  preserve_lit_layers none incoming = incoming
  preserve_lit_layers (some prior) incoming =
      let table = collect incoming.prefix (pairs incoming.index incoming.layers) [] in
      let (kept, changed) = keep_all_lit prior lit_layer_keys (table, false) in
      if not (prior.origin == incoming.origin)
      then incoming
      else if changed
      then rebuild incoming kept
      else incoming

  -- `reading(key)`: the first layer at exactly the key.
  unfoldable pub reading_in : String → Dict Layer → Option Json
  reading_in address [] = none
  reading_in address ((path, layer) ∷ rest) =
      if path == address then try_decode layer else reading_in address rest

  unfoldable pub reading : String → Value → Option Json
  unfolding reading_in pairs
  reading key v = reading_in (below v.prefix key) (pairs v.index v.layers)

  -- `metric(key)`
  unfoldable pub metric : String → Value → Json
  unfolding reading
  metric key v = elim (reading key v) [ none ↦ undefined | some payload ↦ first_of payload ]

  -- `readings()`
  unfoldable pub readings_in : String → Dict Layer → List (String × Json)
  readings_in prefix [] = []
  readings_in prefix ((path, layer) ∷ rest) = elim (layer_relative_to_prefix path prefix) [
    | none ↦ readings_in prefix rest
    | some suffix ↦ elim (try_decode layer) [
      | none ↦ readings_in prefix rest
      | some payload ↦ (suffix, payload) ∷ readings_in prefix rest
    ]
  ]

  unfoldable pub readings : Value → List (String × Json)
  unfolding readings_in pairs
  readings v = readings_in v.prefix (pairs v.index v.layers)

  -- `metrics()`
  unfoldable pub metrics : Value → Dict Number
  unfolding add_metrics readings
  metrics v = add_metrics (readings v) []

  unfoldable pub provenance : Value → Dict String
  unfolding add_texts readings
  provenance v = add_texts (readings v) []

  -- The loop of `lookup(keys)`: none where `decodeJsonBytes` throws.
  unfoldable pub lookup_in : String → List String → Dict Layer → Option (List Json)
  lookup_in prefix keys [] = some []
  lookup_in prefix keys ((path, layer) ∷ rest) =
      let later = lookup_in prefix keys rest in
      if any (λ key. starts_with path (below prefix key)) keys
      then elim (try_decode layer) [
        | none ↦ none
        | some payload ↦ elim later [ none ↦ none | some payloads ↦ some (payload ∷ payloads) ]
      ]
      else later

  -- `lookup(keys)`
  unfoldable pub lookup_layers : List String → Value → Option (List Json)
  unfolding lookup_in pairs
  lookup_layers keys v = lookup_in v.prefix keys (pairs v.index v.layers)
