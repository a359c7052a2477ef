-- ===== src/Store/Sound.antt =====
-- Every leaf of the nest is a well-formed ring of the store's size, and stays one.
use symm.Base.{
  ℕ, ◌≡◌, refl, String, List, [], ◌∷◌, Bool-cases, Option-cases, inl, inr, ◌⊎◌, or_value, lookup,
  Values, Values-lookup, Values-insert, ◌==◌, ◌∙◌,
}
use symm.Circular.{create}
use symm.Circular.Valid.{IsValid, create-IsValid, push-IsValid, positions-push}
use symm.Store.{
  Node, empty_node, is_inherited, push_row, push_rows, Outcome, done, thrown, stray, KeyedState,
  update_frame,
}

pub Outcome-cases : (o : Outcome) → (o ≡ done) ⊎ ((o ≡ thrown) ⊎ (o ≡ stray))
Outcome-cases done = inl refl
Outcome-cases thrown = inr (inl refl)
Outcome-cases stray = inr (inr refl)

-- The rings below a node are valid and of size `limit`.
abbrev pub IsSound : {T : Type 0} → ℕ → (keys : List (T → String)) → Node keys → Type 0
IsSound limit [] ring = IsValid ring × (ring.positions ≡ limit)
IsSound limit (key ∷ keys) node = Values (IsSound limit keys) node

module _ {T : Type 0} (limit : ℕ) where
  pub empty_node-IsSound : (keys : List (T → String)) → IsSound limit keys (empty_node limit keys)
  unfolding empty_node create
  empty_node-IsSound [] = (create-IsValid limit, refl)
  empty_node-IsSound (key ∷ keys) = tt

  pub child-IsSound :
      (keys : List (T → String)) (name : String) (node : List (String × Node keys))
      → Values (IsSound limit keys) node
      → IsSound limit keys (or_value (lookup name node) (empty_node limit keys))
  child-IsSound keys name node h = elim (Option-cases (lookup name node)) [
    | inl missing ↦ rw missing (empty_node-IsSound keys)
    | inr (child, found) ↦ rw found (Values-lookup (IsSound limit keys) name node h found)
  ]

  pub push_row-IsSound :
      (keys : List (T → String)) (row : T) (node : Node keys)
      → IsSound limit keys node
      → IsSound limit keys (push_row limit keys row node).0
  unfolding push_row
  push_row-IsSound [] row ring (valid, sized) =
      (push-IsValid row ring valid, positions-push row ring ∙ sized)
  push_row-IsSound (key ∷ keys) row node h = elim (Bool-cases (key row == "")) [
    | inl blank ↦ rw blank h
    | inr named ↦ elim (Bool-cases (is_inherited (key row))) [
      | inl taken ↦ rw (named, taken) h
      | inr free ↦
          rw (named, free)
            (Values-insert (IsSound limit keys) (key row) _ node
              (push_row-IsSound keys row (or_value (lookup (key row) node) (empty_node limit keys))
                (child-IsSound keys (key row) node h))
              h)
    ]
  ]

  pub push_rows-IsSound :
      (keys : List (T → String)) (rows : List T) (node : Node keys)
      → IsSound limit keys node
      → IsSound limit keys (push_rows limit keys rows node).0
  unfolding push_rows
  push_rows-IsSound keys [] node h = h
  push_rows-IsSound keys (row ∷ rows) node h =
      let kept : IsSound limit keys (push_row limit keys row node).0 =
        push_row-IsSound keys row node h in
      elim (Outcome-cases (push_row limit keys row node).1) [
        | inl ended ↦
            rw (ended, push_rows)
              (push_rows-IsSound keys rows (push_row limit keys row node).0 kept)
        | inr (inl threw) ↦ rw (threw, push_rows) kept
        | inr (inr left) ↦ rw (left, push_rows) kept
      ]

  -- A frame keeps every leaf a ring of the store's size, whether it ends well or throws.
  pub update_frame-IsSound :
      (keys : List (T → String)) (rows : List T) (prev : KeyedState keys)
      → IsSound limit keys prev.root
      → IsSound limit keys (update_frame limit keys rows prev).0.root
  unfolding update_frame
  update_frame-IsSound keys [] prev h = h
  update_frame-IsSound keys (row ∷ rows) prev h =
      let kept : IsSound limit keys (push_rows limit keys (row ∷ rows) prev.root).0 =
        push_rows-IsSound keys (row ∷ rows) prev.root h in
      elim (Outcome-cases (push_rows limit keys (row ∷ rows) prev.root).1) [
        | inl ended ↦ rw (ended, update_frame) kept
        | inr (inl threw) ↦ rw (threw, update_frame) kept
        | inr (inr left) ↦ rw (left, update_frame) kept
      ]
