-- ===== src/Lifecycle/Reader.antt =====
-- What lifecycle.ts asks of frontend/src/lib/desk-closed-lifecycle.ts and of `positionReadout` in
-- frontend/src/components/book-readout.ts: to read a desk row as a round trip.
use symm.Base.{Bool, true, false, ◌≡◌, Option, none, some, ◌==◌}
use symm.Base.Json.{str, Fields, get}
use symm.Lifecycle.{Lifecycle}

pub record DeskReader : Type 0 where
  -- `lifecycleFromDeskClosed`, `lifecycleFromDeskOpen` and `positionReadout(row).closed`
  pub from_closed : Fields → Option Lifecycle
  pub from_open : Fields → Option Lifecycle
  pub is_closed : Fields → Bool
  -- A round trip has its row's id, and the status of the function that made it.
  pub closed_id :
      (row : Fields) {l : Lifecycle} → from_closed row ≡ some l → get "id" row ≡ str l.id
  pub closed_status :
      (row : Fields) {l : Lifecycle} → from_closed row ≡ some l → l.status ≡ "closed"
  pub open_id : (row : Fields) {l : Lifecycle} → from_open row ≡ some l → get "id" row ≡ str l.id
  pub open_status : (row : Fields) {l : Lifecycle} → from_open row ≡ some l → l.status ≡ "holding"
  -- A row with no id is not read.
  pub open_named : (row : Fields) {l : Lifecycle} → from_open row ≡ some l → (l.id == "") ≡ false
  -- An open round trip comes from a row that is not closed.
  pub open_row : (row : Fields) {l : Lifecycle} → from_open row ≡ some l → is_closed row ≡ false
  -- Both set the `desk` flag and neither sets `history`.
  pub closed_flags :
      (row : Fields) {l : Lifecycle}
      → from_closed row ≡ some l
      → (l.desk ≡ some true) × (l.history ≡ none)
  pub open_flags :
      (row : Fields) {l : Lifecycle}
      → from_open row ≡ some l
      → (l.desk ≡ some true) × (l.history ≡ none)
