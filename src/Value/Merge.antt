-- ===== src/Value/Merge.antt =====
-- `mergeWorkspaceAggregate`: the union of two partial frames.
use symm.Base.{
  String, true, false, Option, none, some, [], ◌∷◌, ◌≡◌, refl, sym, ap, ◌∙◌, or_else, Dict, lookup,
  IsMap,
}
use symm.Base.Number.{int_eq}
use symm.Value.{Value, Layer, pairs, collect, rebuild, merge_workspace_aggregate}
use symm.Value.Layers.{layer_at, lookup-collect, collect-IsMap, layer_at-rebuild}

-- The two ends of the merge, by what the table is.
merged :
    (incoming : Value) (relative : String) (table : Dict Layer)
    → IsMap table
    → lookup relative table ≡ or_else (layer_at relative incoming) (lookup relative table)
    → layer_at relative
        (elim table [ [] ↦ incoming | entry ∷ rest ↦ rebuild incoming (entry ∷ rest) ])
      ≡ lookup relative table
unfolding lookup
merged incoming relative [] h covered = sym (nothing (layer_at relative incoming) (sym covered))
  where
    nothing : (l : Option Layer) → or_else l none ≡ none → none ≡ l
    nothing none e = refl
    nothing (some l) e = sym e
merged incoming relative (entry ∷ rest) h covered =
    layer_at-rebuild incoming (entry ∷ rest) relative h

-- Two frames of one tick become one: at every path it has the incoming frame's layer, or where that
-- has none the prior frame's. A frame of another tick replaces the prior one.
pub merge_workspace_aggregate-union :
    (prior incoming : Value) (relative : String)
    → (int_eq prior.tick incoming.tick ≡ true
        → layer_at relative (merge_workspace_aggregate (some prior) incoming)
          ≡ or_else (layer_at relative incoming) (layer_at relative prior))
      × (int_eq prior.tick incoming.tick ≡ false
          → merge_workspace_aggregate (some prior) incoming ≡ incoming)
unfolding merge_workspace_aggregate layer_at
merge_workspace_aggregate-union prior incoming relative =
    let before : Dict Layer = collect prior.prefix (pairs prior.index prior.layers) [] in
    let mine : Dict Layer = pairs incoming.index incoming.layers in
    let union : lookup relative (collect incoming.prefix mine before)
        ≡ or_else (layer_at relative incoming) (lookup relative before) =
      lookup-collect incoming.prefix mine before relative in
    (
      λ same. rw (same) (
          merged incoming relative (collect incoming.prefix mine before)
            (collect-IsMap incoming.prefix mine before
              (collect-IsMap prior.prefix (pairs prior.index prior.layers) [] tt))
            (union
              ∙ sym (twice (layer_at relative incoming) (lookup relative before))
              ∙ ap (or_else (layer_at relative incoming)) (sym union))
          ∙ union),
      λ apart. rw apart refl,
    )
  where
    twice : (l m : Option Layer) → or_else l (or_else l m) ≡ or_else l m
    twice none m = refl
    twice (some l) m = refl
