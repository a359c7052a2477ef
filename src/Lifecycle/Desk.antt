-- ===== src/Lifecycle/Desk.antt =====
-- `ingestDeskClosedLots` of lifecycle.ts: the round trips mirror the rows of the desk. A row's id is
-- a text.
pub mod Mirror
use symm.Base.{
  ℕ, String, Bool, true, false, not, ◌&&◌, ◌||◌, Option, none, some, List, [], ◌∷◌, ◌++◌, ◌==◌,
  if◌then◌else◌, or_value, or_else, Dict, lookup, take_last, any,
}
use symm.Base.Json.{Json, str, Fields, get, string_or_empty}
use symm.Lifecycle.{Lifecycle, LifeMark}
use symm.Lifecycle.Reader.{DeskReader}
use symm.Lifecycle.Capped.{Lives, store_life}
use symm.Lifecycle.Positions.{marks_or, tape_limit}
use symm.Lifecycle.History.{fill_gaps, option_of}

abbrev pub is_closed_life : Lifecycle → Bool
is_closed_life life = life.status == "closed"

abbrev pub is_desk : Lifecycle → Bool
is_desk life = or_value life.desk false

-- The loop that removes the desk's round trips that are not open any more, and whether it did.
unfoldable pub sweep : List String → Dict Lifecycle → Dict Lifecycle × Bool
sweep open_ids [] = ([], false)
sweep open_ids ((id, life) ∷ rest) =
    let (kept, changed) = sweep open_ids rest in
    if not (is_desk life) || is_closed_life life
    then ((id, life) ∷ kept, changed)
    else if any (λ k. k == id) open_ids
    then ((id, life) ∷ kept, changed)
    else (kept, true)

-- The round trip that a row stores.
unfoldable pub desk_life : Option Lifecycle → Lifecycle → Lifecycle
desk_life existing life =
    let marks =
      take_last tape_limit
        (or_value (option_of existing (λ e. e.marks)) [] ++ or_value life.marks []) in
    record (fill_gaps existing life) { marks = marks_or marks (option_of existing (λ e. e.marks)) }

-- Is a close recorded that the row does not have?
unfoldable pub is_settled : Option Lifecycle → Lifecycle → Bool
is_settled none life = false
is_settled (some existing) life = is_closed_life existing && not (is_closed_life life)

module _ (reader : DeskReader) where
  -- The ids of the rows that are open.
  unfoldable pub open_ids : List Fields → List String
  open_ids [] = []
  open_ids (row ∷ rows) =
      let id = string_or_empty (get "id" row) in
      let rest = open_ids rows in
      if id == "" then rest else if reader.is_closed row then rest else id ∷ rest

  -- One turn of the loop over the rows.
  unfoldable pub ingest_desk_row : Fields → Lives → Lives × Bool
  unfolding desk_life is_settled
  ingest_desk_row row s = elim (or_else (reader.from_closed row) (reader.from_open row)) [
    | none ↦ (s, false)
    | some life ↦
        let existing = lookup life.id s.lives in
        if is_settled existing life then (s, false) else store_life (desk_life existing life) s
  ]

  unfoldable pub ingest_desk_rows : List Fields → Lives → Lives × Bool
  unfolding ingest_desk_row
  ingest_desk_rows [] s = (s, false)
  ingest_desk_rows (row ∷ rows) s =
      let (s', changed) = ingest_desk_row row s in
      let (end, later) = ingest_desk_rows rows s' in (end, changed || later)

  -- `ingestDeskClosedLots`, and whether it publishes.
  unfoldable pub ingest_desk_closed_lots : List Fields → Lives → Lives × Bool
  unfolding open_ids sweep ingest_desk_rows
  ingest_desk_closed_lots rows s =
      let (kept, swept) = sweep (open_ids rows) s.lives in
      let (end, changed) = ingest_desk_rows rows (record s { lives = kept }) in
      (end, swept || changed)
