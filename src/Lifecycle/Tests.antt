-- ===== src/Lifecycle/Tests.antt =====
-- Runs of lifecycle.ts.
use symm.Base.{
  ◌↔◌, length, All, Dict, or_value, ◌++◌, map, delete, insert, ℕ, ◌≤◌, String, Bool, true, false,
  Option, none, some, List, [], ◌∷◌, ◌≡◌, ◌⊎◌, refl, ap, ◌∙◌, ◌==◌, lookup, IsMap, arith,
  if◌then◌else◌, sym, inl, inr, Bool-cases,
}
use symm.Base.Number.{pos}
use symm.Base.Json.{Json, str, Fields, field, end, get, string_or_empty}
use symm.Listing.{Stamp, ClosedEntry}
use symm.Lifecycle.{LifeOutcome, LifeEvent, value, Lifecycle, absent, null}
use symm.Lifecycle.Reader.{DeskReader}
use symm.Lifecycle.Capped.{
  move_to_end, evict_while, Lives, is_history, count_of, is_unchanged, store_life,
  desk_life_changed,
}
use symm.Lifecycle.Capped.Bounds.{store_life-capped, of_kind, cap, IsKept}
use symm.Lifecycle.Capped.Survive.{store_life-keeps_open, store_life-present}
use symm.Base.Number.{Number, of_ℕ}
use symm.Lifecycle.Positions.{PositionInput, is_frame, is_snapshot, ingest_position_frame}
use symm.Lifecycle.Positions.Tape.{ingest_position_frame-event}
use symm.Lifecycle.Desk.{open_ids, ingest_desk_closed_lots}
use symm.Lifecycle.Desk.Mirror.{AreOpenRows, ingest_desk_closed_lots-AreOpenRows}
use symm.Lifecycle.History.{fill_gaps, is_newer, ingest_history_batch}
use symm.Lifecycle.History.Order.{is_newer_order, IsAfter}
use symm.Lifecycle.History.Session.{ingest_history_batch-session}

abbrev bare : String → String → Lifecycle
bare id status = record {
  id = id;
  symbol = "BTC/EUR";
  status = status;
  policy_epoch = none;
  path = none;
  opened_at = "";
  closed_at = null;
  events = none;
  mark = null;
  stop_state = null;
  policy = null;
  peak_pct = null;
  realized_pct = null;
  pnl_trace = null;
  bars_held = null;
  exit_trigger = null;
  official_exit_pct = null;
  marks = none;
  outcome = null;
  book = none;
  path_found = none;
  desk = some true;
  history = none;
  marks_a = absent;
  marks_b = absent;
  marks_c = absent;
}

abbrev text_of : Json → Option String
text_of (str s) = some s
text_of _ = none

-- A reader of rows that have an id and a status alone.
abbrev made : String → Json → Option Lifecycle
made status (str id) = if id == "" then none else some (bare id status)
made status _ = none

read_lem :
    (status id : String) (l : Lifecycle)
    → bare id status ≡ l
    → (str id ≡ str l.id) × ((l.status ≡ status) × ((l.desk ≡ some true) × (l.history ≡ none)))
read_lem status id l same = (
  ap (λ x. str x.id) same,
  (ap (λ x. x.status) (sym same), (ap (λ x. x.desk) (sym same), ap (λ x. x.history) (sym same))),
)

made_named :
    (status : String) (id : Json) (l : Lifecycle) → made status id ≡ some l → (l.id == "") ≡ false
made_named status (str id) l e = elim (Bool-cases (id == "")) [
  | inl unnamed ↦ cc
  | inr named ↦
      let same : bare id status ≡ l = ground (arith, e, named) in
      ap (λ x. x.id == "") (sym same) ∙ named
]
made_named status other l e = cc

made_lem :
    (status : String) (id : Json) (l : Lifecycle)
    → made status id ≡ some l
    → (id ≡ str l.id) × ((l.status ≡ status) × ((l.desk ≡ some true) × (l.history ≡ none)))
made_lem status (str id) l e = elim (Bool-cases (id == "")) [
  | inl unnamed ↦ cc
  | inr named ↦ read_lem status id l (ground (arith, e, named))
]
made_lem status other l e = cc

abbrev closed_test : Fields → Bool
closed_test row = string_or_empty (get "status" row) == "closed"

opened_lem :
    (row : Fields) (l : Lifecycle)
    → (if closed_test row then none else made "holding" (get "id" row)) ≡ some l
    → (get "id" row ≡ str l.id)
      × ((l.status ≡ "holding") × ((l.desk ≡ some true) × (l.history ≡ none)))
opened_lem row l e = elim (Bool-cases (closed_test row)) [
  | inl over ↦ cc
  | inr runs ↦ made_lem "holding" (get "id" row) l (ground (arith, e, runs))
]

open_row_lem :
    (row : Fields) (l : Lifecycle)
    → (if closed_test row then none else made "holding" (get "id" row)) ≡ some l
    → closed_test row ≡ false
open_row_lem row l e = ground (arith, e)

open_named_lem :
    (row : Fields) (l : Lifecycle)
    → (if closed_test row then none else made "holding" (get "id" row)) ≡ some l
    → (l.id == "") ≡ false
open_named_lem row l e = elim (Bool-cases (closed_test row)) [
  | inl over ↦ cc
  | inr runs ↦ made_named "holding" (get "id" row) l (ground (arith, e, runs))
]

abbrev reader : DeskReader
reader = record {
  from_closed = λ row. made "closed" (get "id" row);
  from_open = λ row. if closed_test row then none else made "holding" (get "id" row);
  is_closed = closed_test;
  closed_id = λ row {l} e. (made_lem "closed" (get "id" row) l e).0;
  closed_status = λ row {l} e. (made_lem "closed" (get "id" row) l e).1.0;
  open_id = λ row {l} e. (opened_lem row l e).0;
  open_status = λ row {l} e. (opened_lem row l e).1.0;
  open_named = λ row {l} e. open_named_lem row l e;
  open_row = λ row {l} e. open_row_lem row l e;
  closed_flags = λ row {l} e. (made_lem "closed" (get "id" row) l e).1.1;
  open_flags = λ row {l} e. (opened_lem row l e).1.1;
}

abbrev held : Lifecycle
held = bare "s1" "holding"

abbrev at : ℕ → Stamp
at tick = record { epoch = pos 1; tick = pos tick; timestamp = pos 0 }

abbrev session : Lives
session = record { lives = ("s1", held) ∷ []; stamps = [] }

session-IsMap : IsMap session.lives
unfolding lookup
session-IsMap = (refl, tt)

held_found : lookup "s1" session.lives ≡ some held
unfolding lookup
held_found = refl

abbrev entry : String → ClosedEntry
entry id = record { stamp = at 3; row = field "id" (str id) end }

abbrev batch : List ClosedEntry
batch = entry "h1" ∷ entry "s1" ∷ []

ingest_history_batch-session_example :
    lookup "s1" (ingest_history_batch reader batch session).0.lives ≡ some held
ingest_history_batch-session_example =
    ingest_history_batch-session reader batch session "s1" held session-IsMap held_found refl

is_newer_order_example :
    ((is_newer (at 1) (at 2) ≡ true) ↔ IsAfter (at 1) (at 2))
    × (is_newer (at 1) (at 1) ≡ false)
    × (is_newer (at 1) (at 2) ≡ true
        → is_newer (at 2) (at 3) ≡ true
        → is_newer (at 1) (at 3) ≡ true)
    × ((is_newer (at 1) (at 2) ≡ true) ⊎ ((is_newer (at 2) (at 1) ≡ true) ⊎ (at 1 ≡ at 2)))
is_newer_order_example = is_newer_order (at 1) (at 2) (at 3)

abbrev fresh : Lifecycle
fresh = bare "s2" "closed"

fresh_stored : (store_life fresh session).1 ≡ true
unfolding store_life is_unchanged lookup
fresh_stored = refl

store_life-capped_example :
    let m = (store_life fresh session).0.lives in
    (length (of_kind (is_history fresh) m) ≤ cap (is_history fresh))
    ⊎ All (IsKept (is_history fresh)) m
store_life-capped_example = store_life-capped fresh session fresh_stored

store_life-keeps_open_example : lookup "s1" (store_life fresh session).0.lives ≡ some held
store_life-keeps_open_example =
    store_life-keeps_open fresh session "s1" held session-IsMap refl held_found refl

abbrev renewed : Lifecycle
renewed = bare "s1" "pending"

renewed_changed : is_unchanged renewed session ≡ false
unfolding is_unchanged lookup desk_life_changed
renewed_changed = refl

store_life-present_example : lookup "s1" (store_life renewed session).0.lives ≡ some renewed
store_life-present_example = store_life-present renewed session session-IsMap renewed_changed refl

abbrev exit_event : LifeEvent
exit_event = record { at = "t1"; kind = "exit"; detail = ""; fields = none }

abbrev input : PositionInput
input = record {
  has_texts = true;
  events = absent;
  event = value exit_event;
  life = bare "s1" "exiting";
}

one_field_null : is_frame input ≡ true
unfolding is_frame
one_field_null = refl

no_events_field : is_snapshot input ≡ false
unfolding is_snapshot
no_events_field = refl

ingest_position_frame-event_example :
    (after : Lifecycle) × (lookup "s1" (ingest_position_frame input session).0.lives ≡ some after)
    × (after.events ≡ some (or_value held.events [] ++ exit_event ∷ []))
ingest_position_frame-event_example =
    ingest_position_frame-event input session held exit_event session-IsMap no_events_field
      one_field_null held_found refl refl refl

-- A snapshot with one open row: the desk's other round trip goes.
abbrev desk_rows : List Fields
desk_rows = field "id" (str "s9") (field "status" (str "holding") end) ∷ []

mirrored : map (λ e. e.0) (ingest_desk_closed_lots reader desk_rows session).0.lives ≡ "s9" ∷ []
unfolding ingest_desk_closed_lots store_life is_unchanged move_to_end evict_while count_of lookup
    insert delete fill_gaps
mirrored = refl

ingest_desk_closed_lots-AreOpenRows_example :
    AreOpenRows
      (open_ids reader desk_rows)
      (ingest_desk_closed_lots reader desk_rows session).0.lives
ingest_desk_closed_lots-AreOpenRows_example =
    ingest_desk_closed_lots-AreOpenRows reader desk_rows session

abbrev no_count : Number
no_count = of_ℕ 0

abbrev settlement : LifeOutcome
settlement = record {
  pnl = no_count;
  pnl_pct = no_count;
  money = absent;
  hold_ns = no_count;
  expected_hold_ns = none;
  triggers = none;
  realized = absent;
  mark = absent;
  bars_held = absent;
  max_lifetime_bars = absent;
}

abbrev settled : Dict Lifecycle
settled = ("s1", record (bare "s1" "closed") { outcome = value settlement }) ∷ []

-- `String(value)` of what is no text
abbrev value_text : Json → String
value_text v = "value"
