-- ===== src/Value/Lit.antt =====
-- `preserveLitLayers`: the last lit layers stay where a newer frame has none.
use symm.Base.{
  ℕ, String, Bool, true, false, Option, none, some, List, [], ◌∷◌, ◌≡◌, refl, sym, ap, ◌∙◌, arith,
  ◌==◌, if◌then◌else◌, or_value, Dict, lookup, lookup-insert, IsMap, IsMap-insert, Bool-cases, inl,
  inr, any, eq_iff,
}
use symm.Base.Json.{Json}
use symm.Value.{
  Value, Layer, pairs, collect, first_at, non_empty_array_layer, keep_lit, keep_all_lit,
  lit_layer_keys, preserve_lit_layers,
}
use symm.Value.Layers.{layer_at, collect-IsMap, layer_at-rebuild}

module _ (decode : List ℕ → Option Json) (prior : Value) where
  -- The layer of the prior frame at a key: the first one.
  abbrev pub old_layer : String → Layer
  old_layer key = first_at prior.prefix key (pairs prior.index prior.layers)

  abbrev pub is_lit : Layer → Bool
  is_lit = non_empty_array_layer decode

  -- What a lit key shows: the layer that is there if it is lit, or else the prior one if that is.
  abbrev pub brighter : String → Option Layer → Option Layer
  brighter key mine =
      if is_lit (or_value mine none)
      then mine
      else if is_lit (old_layer key)
      then some (old_layer key)
      else mine

  lookup-keep_lit :
      (key relative : String) (table : Dict Layer) (changed : Bool)
      → lookup relative (keep_lit decode prior key (table, changed)).0
        ≡ (if key == relative then brighter key (lookup relative table) else lookup relative table)
  unfolding keep_lit
  lookup-keep_lit key relative table changed =
      ground (arith, lookup-insert key relative (old_layer key) table, eq_iff key relative)

  keep_lit-IsMap :
      (key : String) (table : Dict Layer) (changed : Bool)
      → IsMap table
      → IsMap (keep_lit decode prior key (table, changed)).0
  unfolding keep_lit
  keep_lit-IsMap key table changed h = ground (arith, IsMap-insert key (old_layer key) table)

  -- Where nothing changed, the table is what it was.
  keep_lit-same :
      (key : String) (table : Dict Layer) (changed : Bool)
      → (keep_lit decode prior key (table, changed)).1 ≡ false
      → (keep_lit decode prior key (table, changed) ≡ (table, false))
  unfolding keep_lit
  keep_lit-same key table changed e = ground (arith, e)

  keep_lit-true :
      (key : String) (table : Dict Layer) → (keep_lit decode prior key (table, true)).1 ≡ true
  unfolding keep_lit
  keep_lit-true key table = ground arith

  keep_all_lit-true :
      (keys : List String) (table : Dict Layer)
      → (keep_all_lit decode prior keys (table, true)).1 ≡ true
  unfolding keep_all_lit
  keep_all_lit-true [] table = refl
  keep_all_lit-true (key ∷ keys) table =
      ap (λ b. (keep_all_lit decode prior keys ((keep_lit decode prior key (table, true)).0, b)).1)
        (keep_lit-true key table)
      ∙ keep_all_lit-true keys (keep_lit decode prior key (table, true)).0

  keep_all_lit-same :
      (keys : List String) (table : Dict Layer)
      → (keep_all_lit decode prior keys (table, false)).1 ≡ false
      → keep_all_lit decode prior keys (table, false) ≡ (table, false)
  unfolding keep_all_lit
  keep_all_lit-same [] table e = refl
  keep_all_lit-same (key ∷ keys) table e =
      elim (Bool-cases (keep_lit decode prior key (table, false)).1) [
        | inl lit ↦ absurd (
            false-ne-true (
              sym e
              ∙ ap
                  (λ b.
                    (keep_all_lit decode prior keys
                      ((keep_lit decode prior key (table, false)).0, b)).1)
                  lit
              ∙ keep_all_lit-true keys (keep_lit decode prior key (table, false)).0))
        | inr dark ↦
            let same : keep_lit decode prior key (table, false) ≡ (table, false) =
              keep_lit-same key table false dark in
            ap (keep_all_lit decode prior keys) same
            ∙ keep_all_lit-same keys table
                (ap (λ s. (keep_all_lit decode prior keys s).1) (sym same) ∙ e)
      ]
    where
      false-ne-true : false ≡ true → ⊥
      false-ne-true h = cc

  keep_all_lit-IsMap :
      (keys : List String) (table : Dict Layer) (changed : Bool)
      → IsMap table
      → IsMap (keep_all_lit decode prior keys (table, changed)).0
  unfolding keep_all_lit
  keep_all_lit-IsMap [] table changed h = h
  keep_all_lit-IsMap (key ∷ keys) table changed h =
      keep_all_lit-IsMap keys (keep_lit decode prior key (table, changed)).0
        (keep_lit decode prior key (table, changed)).1 (keep_lit-IsMap key table changed h)

  brighter_idem : (key : String) (l : Option Layer) → brighter key (brighter key l) ≡ brighter key l
  brighter_idem key l = elim (Bool-cases (is_lit (or_value l none))) [
    | inl mine ↦ rw (mine, mine) refl
    | inr dark ↦ elim (Bool-cases (is_lit (old_layer key))) [
      | inl lit ↦ rw (dark, lit, lit) refl
      | inr out ↦ rw (dark, out, dark) refl
    ]
  ]

  once_more :
      (again : Bool) (key : String) (l : Option Layer)
      → (if again then brighter key (brighter key l) else brighter key l) ≡ brighter key l
  once_more true key l = brighter_idem key l
  once_more false key l = refl

  lookup-keep_all_lit :
      (keys : List String) (relative : String) (table : Dict Layer) (changed : Bool)
      → lookup relative (keep_all_lit decode prior keys (table, changed)).0 ≡ (
          if any (λ key. key == relative) keys
          then brighter relative (lookup relative table)
          else lookup relative table)
  unfolding keep_all_lit
  lookup-keep_all_lit [] relative table changed = refl
  lookup-keep_all_lit (key ∷ keys) relative table changed =
      let state = keep_lit decode prior key (table, changed) in
      let found : Option Layer = lookup relative table in
      lookup-keep_all_lit keys relative (state.0) (state.1)
      ∙ ap (λ l. if any (λ k. k == relative) keys then brighter relative l else l)
          (lookup-keep_lit key relative table changed)
      ∙ elim (Bool-cases (key == relative)) [
        | inl same ↦ rw (same) (
            ap
              (λ k.
                if any (λ k'. k' == relative) keys
                then brighter relative (brighter k found)
                else brighter k found)
              ((eq_iff key relative).0 same)
            ∙ once_more (any (λ k'. k' == relative) keys) relative found)
        | inr other ↦ rw other refl
      ]

  -- A frame of the prior one's origin shows at `regions`, `active` and `lit` its own layer if that
  -- is a JSON array with elements, or else the prior frame's first layer there if that is one; at
  -- any other path it shows its own layer. A frame of another origin is taken as it is.
  pub preserve_lit_layers-keeps :
      (incoming : Value) (relative : String)
      → ((prior.origin == incoming.origin) ≡ true
          → layer_at relative (preserve_lit_layers decode (some prior) incoming) ≡ (
              if any (λ key. key == relative) lit_layer_keys
              then brighter relative (layer_at relative incoming)
              else layer_at relative incoming))
        × ((prior.origin == incoming.origin) ≡ false
            → preserve_lit_layers decode (some prior) incoming ≡ incoming)
  unfolding preserve_lit_layers layer_at
  preserve_lit_layers-keeps incoming relative =
      let table : Dict Layer = collect incoming.prefix (pairs incoming.index incoming.layers) [] in
      let kept : Dict Layer × Bool = keep_all_lit decode prior lit_layer_keys (table, false) in
      let shown = lookup-keep_all_lit lit_layer_keys relative table false in
      (
        λ ours. elim (Bool-cases (kept.1)) [
          | inl changed ↦
              rw (ours, changed)
                (layer_at-rebuild incoming (kept.0) relative (
                    keep_all_lit-IsMap lit_layer_keys table false
                      (collect-IsMap incoming.prefix (pairs incoming.index incoming.layers) [] tt))
                  ∙ shown)
          | inr same ↦
              rw (ours, same)
                (ap (λ s. lookup relative (s.0)) (sym (keep_all_lit-same lit_layer_keys table same))
                  ∙ shown)
        ],
        λ foreign. rw foreign refl,
      )
