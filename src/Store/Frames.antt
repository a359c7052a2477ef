-- ===== src/Store/Frames.antt =====
-- Whole frames: what `updateFrame` leaves under each path, and the version that it counts.
use symm.Base.{
  ℕ, ◌+◌, ◌≢◌, ◌≡◌, refl, sym, ap, String, Bool, true, false, Option, some, List, [], ◌∷◌, ◌++◌,
  map, append-nil, append_assoc, inl, inr, ◌∙◌, arith, if◌then◌else◌, take_last, keep,
  take_last-append,
}
use symm.Circular.Retained.{take_last_short}
use symm.Store.{Node, push_row, push_rows, Outcome, done, KeyedState, update_frame}
use symm.Store.Sound.{IsSound, push_row-IsSound, Outcome-cases}
use symm.Store.Series.{series, has_keys, IsNamed, series-push_row, length-series}

abbrev pub is_done : Outcome → Bool
is_done done = true
is_done _ = false

abbrev pub is_empty : {A : Type 0} → List A → Bool
is_empty [] = true
is_empty (x ∷ xs) = false

module _ {T : Type 0} (limit : ℕ) (keys : List (T → String)) where
  joined :
      (mine : Bool) (row : T) (before after : List (Option T)) (rest : List T)
      → after ≡ (if mine then take_last limit (before ++ some row ∷ []) else before)
      → take_last limit (after ++ map some rest)
        ≡ take_last limit (before ++ map some (if mine then row ∷ rest else rest))
  joined true row before after rest e =
      ap (λ l. take_last limit (l ++ map some rest)) e
      ∙ take_last-append limit (before ++ some row ∷ []) (map some rest)
      ∙ ap (take_last limit) (append_assoc before (some row ∷ []) (map some rest))
  joined false row before after rest e = ap (λ l. take_last limit (l ++ map some rest)) e

  -- A frame that ends well is a row that does, and a frame after it that does.
  push_rows-done :
      (row : T) (rows : List T) (node : Node keys)
      → (push_rows limit keys (row ∷ rows) node).1 ≡ done
      → ((push_row limit keys row node).1 ≡ done)
        × (push_rows limit keys (row ∷ rows) node
            ≡ push_rows limit keys rows (push_row limit keys row node).0)
  unfolding push_rows
  push_rows-done row rows node ended = elim (Outcome-cases (push_row limit keys row node).1) [
    | inl fine ↦ (fine, rw (fine, push_rows))
    | inr (inl threw) ↦ ground arith
    | inr (inr left) ↦ ground arith
  ]

  series-push_rows :
      (path : List String) (rows : List T) (node : Node keys)
      → IsSound limit keys node
      → IsNamed path
      → (push_rows limit keys rows node).1 ≡ done
      → series keys path (push_rows limit keys rows node).0
        ≡ take_last limit (series keys path node ++ map some (keep (has_keys keys path) rows))
  series-push_rows path [] node h named ended =
      unfold push_rows in
      sym (
        ap (take_last limit) (append-nil (series keys path node))
        ∙ take_last_short limit (series keys path node) (length-series limit keys path node h))
  series-push_rows path (row ∷ rows) node h named ended =
      let (fine, same) = push_rows-done row rows node ended in
      let next : Node keys = (push_row limit keys row node).0 in
      let ih =
        series-push_rows path rows next (push_row-IsSound limit keys row node h) named
          (ap (λ r. r.1) (sym same) ∙ ended) in
      let step = series-push_row limit keys path row node h named fine in
      ap (λ r. series keys path r.0) same
      ∙ ih
      ∙ joined (has_keys keys path row) row (series keys path node) (series keys path next)
          (keep (has_keys keys path) rows) step

  -- What `updateFrame` does with a frame of at least one row.
  update_frame_lem :
      (row : T) (rows : List T) (prev : KeyedState keys)
      → let (root, outcome) = push_rows limit keys (row ∷ rows) prev.root in
        ((update_frame limit keys (row ∷ rows) prev).1 ≡ outcome)
        × ((update_frame limit keys (row ∷ rows) prev).0.root ≡ root)
        × ((outcome ≡ done)
            → (update_frame limit keys (row ∷ rows) prev).0.version ≡ prev.version + 1)
        × ((outcome ≢ done) → (update_frame limit keys (row ∷ rows) prev).0.version ≡ prev.version)
  unfolding update_frame
  update_frame_lem row rows prev =
      elim (Outcome-cases (push_rows limit keys (row ∷ rows) prev.root).1) [
        | inl fine ↦ ground arith
        | inr (inl threw) ↦ ground arith
        | inr (inr left) ↦ ground arith
      ]

  -- In a sound store, a frame that ends well leaves, under every path of named keys, the newest `limit` of the rows
  -- that stood there and the frame's rows with those keys, oldest first.
  pub series-update_frame :
      (path : List String) (rows : List T) (prev : KeyedState keys)
      → IsSound limit keys prev.root
      → IsNamed path
      → (update_frame limit keys rows prev).1 ≡ done
      → series keys path (update_frame limit keys rows prev).0.root
        ≡ take_last limit (series keys path prev.root ++ map some (keep (has_keys keys path) rows))
  series-update_frame path [] prev h named ended =
      unfold update_frame in
      sym (
        ap (take_last limit) (append-nil (series keys path prev.root))
        ∙ take_last_short limit (series keys path prev.root)
            (length-series limit keys path prev.root h))
  series-update_frame path (row ∷ rows) prev h named ended =
      let (outcome, root, _, _) = update_frame_lem row rows prev in
      ap (series keys path) root
      ∙ series-push_rows path (row ∷ rows) prev.root h named (sym outcome ∙ ended)

  -- `version` counts the frames that had rows and ended well: a subscriber is told of each, and of
  -- no other; an exception leaves the version alone.
  pub version-update_frame :
      (rows : List T) (prev : KeyedState keys)
      → (update_frame limit keys rows prev).0.version ≡ (
          if is_done (update_frame limit keys rows prev).1
          then (if is_empty rows then prev.version else prev.version + 1)
          else prev.version)
  version-update_frame [] prev = unfold update_frame in refl
  version-update_frame (row ∷ rows) prev =
      elim (Outcome-cases (push_rows limit keys (row ∷ rows) prev.root).1) [
        | inl fine ↦ ground (arith, update_frame_lem row rows prev)
        | inr (inl threw) ↦ ground (arith, update_frame_lem row rows prev)
        | inr (inr left) ↦ ground (arith, update_frame_lem row rows prev)
      ]
