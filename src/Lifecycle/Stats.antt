-- ===== src/Lifecycle/Stats.antt =====
-- `deskRowsForStats` of lifecycle.ts: the desk's rows, and the closed lots that the hub's frame has
-- dropped. `rows` is `positionRows` of the application's state.
use symm.Base.{
  String, Bool, false, not, ◌||◌, Option, none, some, List, [], ◌∷◌, ◌++◌, ◌==◌, ◌≡◌, if◌then◌else◌,
  or_value, Dict, any,
}
use symm.Base.Json.{
  Json, undefined, null, num, str, arr, Items, nil, cons, Fields, field, end, get, string_or_empty,
  is_truthy,
}
use symm.Lifecycle.{Lifecycle, Slot, absent, null, value}
use symm.Lifecycle.Desk.{is_closed_life, is_desk}

abbrev texts : List String → Items
texts [] = nil
texts (s ∷ ss) = cons (str s) (texts ss)

abbrev text_json : Slot String → Json
text_json absent = undefined
text_json null = null
text_json (value s) = str s

abbrev triggers_json : Option (List String) → Json
triggers_json none = Json.null
triggers_json (some list) = arr (texts list)

-- `x ?? null`
abbrev or_null : Slot String → Json
or_null (value s) = str s
or_null _ = Json.null

-- `deskRowFromClosedLife`
unfoldable pub desk_row_from_closed_life : Lifecycle → Option Fields
desk_row_from_closed_life life = elim life.outcome [
  | value outcome ↦
      if not (is_closed_life life)
      then none
      else some (
          field "id" (str life.id) (
            field "symbol" (str life.symbol) (
              field "book" (str (or_value life.book "paper")) (
                field "opened_at" (str life.opened_at) (
                  field "closed_at" (text_json life.closed_at) (
                    field "pnl" (num outcome.pnl) (
                      field "pnl_pct" (num outcome.pnl_pct) (
                        field "hold_ns" (num outcome.hold_ns) (
                          field "outcome_triggers" (triggers_json outcome.triggers)
                            (field "exit_trigger" (or_null life.exit_trigger) end))))))))))
  | _ ↦ none
]

abbrev pub is_seen : List String → String → Bool
is_seen seen id = any (λ k. k == id) seen

-- The loop over the round trips: the rows that it adds.
unfoldable pub added_rows : List String → Dict Lifecycle → List Fields
added_rows seen [] = []
added_rows seen ((id, life) ∷ rest) =
    if not (is_desk life) || is_seen seen life.id
    then added_rows seen rest
    else elim (desk_row_from_closed_life life) [
      | none ↦ added_rows seen rest
      | some row ↦ row ∷ added_rows (life.id ∷ seen) rest
    ]

abbrev pub row_id : Fields → String
row_id row = string_or_empty (get "id" row)

-- Rows whose ids differ from these and from each other.
abbrev pub AreFresh : List String → List Fields → Type 0
AreFresh seen [] = Unit
AreFresh seen (row ∷ rows) = (is_seen seen (row_id row) ≡ false) × AreFresh (row_id row ∷ seen) rows

-- `String(row.id)`; `text_of` is `String(value)` of a value that is no text.
abbrev pub id_text : (Json → String) → Json → String
id_text text_of (str s) = s
id_text text_of v = text_of v

module _ (text_of : Json → String) where
  -- The set `seen` before the loop: the ids of the rows that have one.
  unfoldable pub row_ids : List Fields → List String
  row_ids [] = []
  row_ids (row ∷ rows) =
      let rest = row_ids rows in
      if is_truthy (get "id" row) then id_text text_of (get "id" row) ∷ rest else rest

  -- `deskRowsForStats`
  unfoldable pub desk_rows_for_stats : List Fields → Dict Lifecycle → List Fields
  desk_rows_for_stats rows lives = rows ++ added_rows (row_ids rows) lives
