-- ===== src/Store/Series.antt =====
-- The store against its specification: under each path of keys stand the newest `limit` rows that
-- have those keys, oldest first.
use symm.Base.{
  ℕ, ◌≤◌, ◌≢◌, ◌≡◌, refl, sym, ap, Dict, String, Bool, true, false, Option, none, some, List, [],
  ◌∷◌, ◌++◌, Bool-cases, Option-cases, inl, inr, or_value, lookup, Values-lookup, lookup-insert,
  ◌==◌, ◌∙◌, arith, if◌then◌else◌, length, take_last, All, eq_iff, ◌&&◌,
}
use symm.Circular.{create, values, read_from}
use symm.Circular.Retained.{values-push, length-values}
use symm.Store.{Node, empty_node, is_inherited, lost, push_row, done}
use symm.Store.Sound.{IsSound, child-IsSound}

abbrev pub in_child : {A B : Type 0} → (A → List B) → Option A → List B
in_child read none = []
in_child read (some child) = read child

-- The rows that a reader finds under a path of keys.
unfoldable pub series :
    {T : Type 0} → (keys : List (T → String)) → List String → Node keys → List (Option T)
series [] path ring = values ring
series (key ∷ keys) [] node = []
series (key ∷ keys) (name ∷ path) node = in_child (series keys path) (lookup name node)

-- Does a row have these keys?
unfoldable pub has_keys : {T : Type 0} → List (T → String) → List String → T → Bool
has_keys [] path row = true
has_keys (key ∷ keys) [] row = false
has_keys (key ∷ keys) (name ∷ path) row = (key row == name) && has_keys keys path row

abbrev pub IsNamed : List String → Type 0
IsNamed path = All (λ name. name ≢ "") path

module _ {T : Type 0} (limit : ℕ) where
  pub series-empty_node :
      (keys : List (T → String)) (path : List String)
      → series keys path (empty_node limit keys) ≡ []
  unfolding series empty_node create values lookup read_from
  series-empty_node [] path = refl
  series-empty_node (key ∷ keys) [] = refl
  series-empty_node (key ∷ keys) (name ∷ path) = refl

  series-child :
      (keys : List (T → String)) (path : List String) (child : Option (Node keys))
      → series keys path (or_value child (empty_node limit keys))
        ≡ in_child (series keys path) child
  series-child keys path none = series-empty_node keys path
  series-child keys path (some child) = refl

  pub length-series :
      (keys : List (T → String)) (path : List String) (node : Node keys)
      → IsSound limit keys node
      → length (series keys path node) ≤ limit
  unfolding series
  length-series [] path ring (valid, sized) = omega (arith, length-values ring, valid.count_in)
  length-series (key ∷ keys) [] node h = omega arith
  length-series (key ∷ keys) (name ∷ path) node h = elim (Option-cases (lookup name node)) [
    | inl missing ↦ rw (missing, series, in_child, length) (omega arith)
    | inr (child, found) ↦
        rw (found, series, in_child, length)
          (length-series keys path child (Values-lookup (IsSound limit keys) name node h found))
  ]

  lost-ne-done : (keys : List (T → String)) → lost keys ≢ done
  lost-ne-done [] e = cc
  lost-ne-done (key ∷ keys) e = cc

  -- The step of the walk at a key that names a place in the nest.
  series-insert :
      (key : T → String) (keys : List (T → String)) (name : String) (path : List String) (row : T)
      (node : Dict (Node keys))
      → (key row == "") ≡ false
      → is_inherited (key row) ≡ false
      → (let child = or_value (lookup (key row) node) (empty_node limit keys) in
          series keys path (push_row limit keys row child).0 ≡ (
            if has_keys keys path row
            then take_last limit (series keys path child ++ some row ∷ [])
            else series keys path child))
      → series (key ∷ keys) (name ∷ path) (push_row limit (key ∷ keys) row node).0 ≡ (
          if has_keys (key ∷ keys) (name ∷ path) row
          then take_last limit (series (key ∷ keys) (name ∷ path) node ++ some row ∷ [])
          else series (key ∷ keys) (name ∷ path) node)
  unfolding series push_row has_keys
  series-insert key keys name path row node some_name free ih =
      let child : Node keys = or_value (lookup (key row) node) (empty_node limit keys) in
      let child' : Node keys = (push_row limit keys row child).0 in
      rw (some_name, free, lookup-insert (key row) name child' node)
        (elim (Bool-cases (key row == name)) [
          | inl same ↦
              let place : lookup name node ≡ lookup (key row) node =
                ap (λ n. lookup n node) (sym ((eq_iff (key row) name).0 same)) in
              rw (same, place, ← series-child keys path (lookup (key row) node)) ih
          | inr other ↦ rw other
        ])

  -- A row joins the series of its own keys, and no other.
  pub series-push_row :
      (keys : List (T → String)) (path : List String) (row : T) (node : Node keys)
      → IsSound limit keys node
      → IsNamed path
      → (push_row limit keys row node).1 ≡ done
      → series keys path (push_row limit keys row node).0 ≡ (
          if has_keys keys path row
          then take_last limit (series keys path node ++ some row ∷ [])
          else series keys path node)
  unfolding series push_row has_keys
  series-push_row [] path row ring (valid, sized) named ended =
      values-push row ring valid ∙ ap (λ n. take_last n (values ring ++ some row ∷ [])) sized
  series-push_row (key ∷ keys) [] row node h named ended = refl
  series-push_row (key ∷ keys) (name ∷ path) row node h (here, named) ended =
      elim (Bool-cases (key row == "")) [
        | inl blank ↦ ground (arith, eq_iff (key row) "", eq_iff (key row) name)
        | inr some_name ↦ elim (Bool-cases (is_inherited (key row))) [
          | inl taken ↦ absurd (lost-ne-done keys (rw (some_name, taken) at ended))
          | inr free ↦ series-insert key keys name path row node some_name free (
              series-push_row keys path row
                (or_value (lookup (key row) node) (empty_node limit keys))
                (child-IsSound limit keys (key row) node h) named (rw (some_name, free) at ended))
        ]
      ]
