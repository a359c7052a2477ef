-- ===== src/Store.antt =====
-- frontend/src/collections/store.ts: the keyed frame store. A nest of maps with one map for each
-- key extractor, and a ring buffer at each leaf.
--
-- An object made by `Nested()` answers to `array` and to the names of `Object.prototype` before
-- anything is stored in it. Such a key is never `undefined`, so `push` takes what it finds there
-- for a nest or a buffer: for a leaf the call `buffer.push(row)` throws, and higher up the walk
-- leaves the tree. The model says which of the two happens, and nothing of what follows a walk
-- that has left the tree.
pub mod Sound
pub mod Series
pub mod Frames
mod Tests
use symm.Base.{
  ℕ, ◌+◌, String, Bool, false, Option, none, some, List, [], ◌∷◌, ◌==◌, if◌then◌else◌, or_value,
  any, Dict, lookup, insert,
}
use symm.Circular.{Circular, create, push}

-- How one `push` or one frame ends.
pub data Outcome : Type 0 where
  done thrown stray : Outcome

-- The tree under `keys`: a ring when no key is left.
abbrev pub Node : {T : Type 0} → List (T → String) → Type 0
Node {T} [] = Circular T
Node (key ∷ keys) = Dict (Node keys)

-- `Circular(limit)` or `Nested()`
unfoldable pub empty_node : {T : Type 0} → ℕ → (keys : List (T → String)) → Node keys
empty_node limit [] = create limit
empty_node limit (key ∷ keys) = []

abbrev pub inherited_names : List String
inherited_names =
    "array" ∷ "constructor" ∷ "toString" ∷ "toLocaleString" ∷ "valueOf" ∷ "hasOwnProperty"
    ∷ "isPrototypeOf" ∷ "propertyIsEnumerable" ∷ "__proto__" ∷ "__defineGetter__"
    ∷ "__defineSetter__" ∷ "__lookupGetter__" ∷ "__lookupSetter__" ∷ []

unfoldable pub is_inherited : String → Bool
is_inherited key = any (λ name. name == key) inherited_names

-- What an inherited key does, by the keys that are left below it.
abbrev pub lost : {T : Type 0} → List (T → String) → Outcome
lost [] = thrown
lost (key ∷ keys) = stray

-- `push(root, keys, limit, row)`; an empty key ends the walk, with the nests above it made.
unfoldable pub push_row :
    {T : Type 0} → ℕ → (keys : List (T → String)) → T → Node keys → Node keys × Outcome
push_row limit [] row ring = (push row ring, done)
push_row limit (key ∷ keys) row node =
    let (child, outcome) =
      push_row limit keys row (or_value (lookup (key row) node) (empty_node limit keys)) in
    if key row == ""
    then (node, done)
    else if is_inherited (key row)
    then (node, lost keys)
    else (insert (key row) child node, outcome)

-- The loop of `updateFrame`: an exception ends it, and what is written stays written.
unfoldable pub push_rows :
    {T : Type 0} → ℕ → (keys : List (T → String)) → List T → Node keys → Node keys × Outcome
push_rows limit keys [] node = (node, done)
push_rows limit keys (row ∷ rows) node =
    let (next, outcome) = push_row limit keys row node in
    elim outcome [ done ↦ push_rows limit keys rows next | other ↦ (next, other) ]

-- The store's state. The nest is mutated in place, so an exception leaves the rows before it in.
pub record KeyedState {T : Type 0} (keys : List (T → String)) : Type 0 where
  pub version : ℕ
  pub root : Node keys

module _ {T : Type 0} (limit : ℕ) (keys : List (T → String)) where
  unfoldable pub empty : KeyedState keys
  empty = record { version = 0; root = empty_node limit keys }

  unfoldable pub update_frame : List T → KeyedState keys → KeyedState keys × Outcome
  update_frame [] prev = (prev, done)
  update_frame (row ∷ rows) prev =
      let (root, outcome) = push_rows limit keys (row ∷ rows) prev.root in
      elim outcome [
        | done ↦ (record { version = prev.version + 1; root = root }, done)
        | other ↦ (record { version = prev.version; root = root }, other)
      ]

  unfoldable pub reset : KeyedState keys → KeyedState keys
  reset prev = empty
