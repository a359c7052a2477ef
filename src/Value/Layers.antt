-- ===== src/Value/Layers.antt =====
-- Tables of layers, and the values rebuilt from them.
use Prim.Native.String
use symm.Base.{
  String, Bool, Option, none, some, [], ◌∷◌, map, ◌≡◌, refl, sym, ap, ◌∙◌, arith, ◌==◌,
  if◌then◌else◌, or_else, Dict, lookup, insert, lookup-insert, IsMap, IsMap-insert, Option-cases,
  Bool-cases, eq_iff, inl, inr,
}
use text.Mathlib.TextLemmas.{append_assoc}
use symm.Base.Text.{after_prefix, after_prefix-append}
use symm.Value.{Value, Layer, pairs, below, layer_relative_to_prefix, collect, rebuild}

-- The layer that a reader finds at a path below the prefix: the last one.
unfoldable pub layer_at : String → Value → Option Layer
layer_at relative v = lookup relative (collect v.prefix (pairs v.index v.layers) [])

-- A write shows through reads that come after it.
or_else_write :
    {A : Type 0} (later before : Option A) (hit : Bool) (new : A)
    → or_else later (if hit then some new else before)
      ≡ or_else (or_else later (if hit then some new else none)) before
or_else_write later before hit new = ground arith

-- What was in the table before the loop shows where the loop put nothing.
pub lookup-collect :
    (prefix : String) (layers : Dict Layer) (table : Dict Layer) (relative : String)
    → lookup relative (collect prefix layers table)
      ≡ or_else (lookup relative (collect prefix layers [])) (lookup relative table)
unfolding collect lookup
lookup-collect prefix [] table relative = refl
lookup-collect prefix ((path, layer) ∷ rest) table relative =
    elim (Option-cases (layer_relative_to_prefix path prefix)) [
      | inl outside ↦ rw (outside, collect) (lookup-collect prefix rest table relative)
      | inr (name, inside) ↦
          rw (inside, collect)
            (lookup-collect prefix rest (insert name layer table) relative
              ∙ ap (or_else (lookup relative (collect prefix rest [])))
                  (lookup-insert name relative layer table)
              ∙ or_else_write (lookup relative (collect prefix rest [])) (lookup relative table)
                  (name == relative) layer
              ∙ ap
                  (λ l.
                    or_else (or_else (lookup relative (collect prefix rest [])) l)
                      (lookup relative table))
                  (sym (lookup-insert name relative layer []))
              ∙ ap (λ l. or_else l (lookup relative table))
                  (sym (lookup-collect prefix rest (insert name layer []) relative)))
    ]

pub collect-IsMap :
    (prefix : String) (layers : Dict Layer) (table : Dict Layer)
    → IsMap table
    → IsMap (collect prefix layers table)
unfolding collect
collect-IsMap prefix [] table h = h
collect-IsMap prefix ((path, layer) ∷ rest) table h =
    elim (Option-cases (layer_relative_to_prefix path prefix)) [
      | inl outside ↦ rw (outside, collect) (collect-IsMap prefix rest table h)
      | inr (name, inside) ↦
          rw (inside, collect)
            (collect-IsMap prefix rest (insert name layer table) (IsMap-insert name layer table h))
    ]

layer_relative-below :
    (prefix key : String) → layer_relative_to_prefix (below prefix key) prefix ≡ some key
unfolding layer_relative_to_prefix
layer_relative-below prefix key =
    ap (λ s. after_prefix s (String.◌++◌ prefix "/")) (sym (append_assoc prefix "/" key))
    ∙ after_prefix-append (String.◌++◌ prefix "/") key

-- The first entry of a map shows at its own key alone.
first_wins :
    (name relative : String) (layer : Layer) (rest : Dict Layer)
    → lookup name rest ≡ none
    → or_else (lookup relative rest) (lookup relative ((name, layer) ∷ []))
      ≡ lookup relative ((name, layer) ∷ rest)
unfolding lookup
first_wins name relative layer rest fresh = elim (Bool-cases (name == relative)) [
  | inl same ↦
      let free : lookup relative rest ≡ none =
        ap (λ k. lookup k rest) (sym ((eq_iff name relative).0 same)) ∙ fresh in
      rw (same, free, lookup) refl
  | inr other ↦ rw (other, lookup) (or_else_none (lookup relative rest))
]
  where
    or_else_none : (found : Option Layer) → or_else found none ≡ found
    or_else_none none = refl
    or_else_none (some l) = refl

-- Collecting the layers of a rebuilt value reads the table back.
lookup-collect_rebuilt :
    (prefix relative : String) (table : Dict Layer)
    → IsMap table
    → lookup relative
        (collect prefix (pairs (map (λ e. below prefix (e.0)) table) (map (λ e. e.1) table)) [])
      ≡ lookup relative table
unfolding collect pairs lookup insert
lookup-collect_rebuilt prefix relative [] h = refl
lookup-collect_rebuilt prefix relative ((name, layer) ∷ rest) (fresh, h) =
    let others : Dict Layer = pairs (map (λ e. below prefix (e.0)) rest) (map (λ e. e.1) rest) in
    rw (layer_relative-below prefix name, collect)
      (lookup-collect prefix others ((name, layer) ∷ []) relative
        ∙ ap (λ l. or_else l (lookup relative ((name, layer) ∷ [])))
            (lookup-collect_rebuilt prefix relative rest h)
        ∙ first_wins name relative layer rest fresh)

-- A value rebuilt from a table has the table's layers.
pub layer_at-rebuild :
    (incoming : Value) (table : Dict Layer) (relative : String)
    → IsMap table
    → layer_at relative (rebuild incoming table) ≡ lookup relative table
unfolding layer_at rebuild
layer_at-rebuild incoming table relative h = lookup-collect_rebuilt incoming.prefix relative table h
