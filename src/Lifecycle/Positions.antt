-- ===== src/Lifecycle/Positions.antt =====
-- `ingestPositionFrame` of lifecycle.ts: one frame of a position folds into its round trip.
pub mod Tape
use symm.Base.{
  ℕ, String, Bool, true, false, not, ◌&&◌, ◌||◌, Option, none, some, List, [], ◌∷◌, ◌++◌, ◌==◌,
  if◌then◌else◌, or_value, Dict, lookup, take_last, is_some,
}
use symm.Base.Number.{Number, number_eq}
use symm.Lifecycle.{Lifecycle, LifeEvent, LifeMark, LifeOutcome, Slot, absent, null, value, or_slot}
use symm.Lifecycle.Capped.{Lives, store_life}

-- What the guards ask of a frame, and its fields. `events` is absent where it is neither an array
-- nor `null`; `life` has the fields that a round trip has too.
pub record PositionInput : Type 0 where
  -- `id`, `symbol`, `status` and `opened_at` are texts.
  pub has_texts : Bool
  pub events : Slot (List LifeEvent)
  pub event : Slot LifeEvent
  pub life : Lifecycle

-- `isSnapshot`
unfoldable pub is_snapshot : PositionInput → Bool
is_snapshot input = input.has_texts && elim input.events [ absent ↦ false | _ ↦ true ]

abbrev pub is_null : {A : Type 0} → Slot A → Bool
is_null null = true
is_null _ = false

-- `isFrame`: `null` in just one of the two fields.
unfoldable pub is_frame : PositionInput → Bool
is_frame input =
    input.has_texts
    && (if is_null input.event then not (is_null input.life.mark) else is_null input.life.mark)

-- The round trip of a frame with an id that is not there.
abbrev pub fresh_life : Lifecycle → Lifecycle
fresh_life frame = record {
  id = frame.id;
  symbol = frame.symbol;
  status = frame.status;
  policy_epoch = frame.policy_epoch;
  path = none;
  opened_at = frame.opened_at;
  closed_at = absent;
  events = some [];
  mark = absent;
  stop_state = absent;
  policy = absent;
  peak_pct = absent;
  realized_pct = absent;
  pnl_trace = absent;
  bars_held = absent;
  exit_trigger = absent;
  official_exit_pct = absent;
  marks = none;
  outcome = absent;
  book = none;
  path_found = none;
  desk = none;
  history = none;
  marks_a = absent;
  marks_b = absent;
  marks_c = absent;
}

abbrev pub tape_limit : ℕ
tape_limit = 400

-- `marks[marks.length - 1]`
abbrev pub last_mark : List LifeMark → Option LifeMark
last_mark [] = none
last_mark (m ∷ []) = some m
last_mark (m ∷ n ∷ marks) = last_mark (n ∷ marks)

abbrev pub is_repeat : LifeMark → Option LifeMark → Bool
is_repeat mark none = false
is_repeat mark (some last) = (last.at == mark.at) && number_eq last.bid mark.bid

-- The tape with the frame's mark: a repeat of the last one is left out.
unfoldable pub add_mark : Slot LifeMark → List LifeMark → List LifeMark
add_mark (value mark) marks =
    if is_repeat mark (last_mark marks) then marks else take_last tape_limit (marks ++ mark ∷ [])
add_mark _ marks = marks

-- `marks.length > 0 ? marks : other`
abbrev pub marks_or : List LifeMark → Option (List LifeMark) → Option (List LifeMark)
marks_or [] other = other
marks_or (m ∷ marks) other = some (m ∷ marks)

abbrev pub add_event : Slot LifeEvent → Option (List LifeEvent) → Option (List LifeEvent)
add_event (value event) events = some (or_value events [] ++ event ∷ [])
add_event _ events = events

-- `next`
unfoldable pub next_life : PositionInput → Lifecycle → Lifecycle
unfolding add_mark
next_life input life = record life {
  status = input.life.status;
  closed_at = or_slot input.life.closed_at life.closed_at;
  outcome = or_slot input.life.outcome life.outcome;
  mark = or_slot input.life.mark life.mark;
  stop_state = or_slot input.life.stop_state life.stop_state;
  marks = marks_or (add_mark input.life.mark (or_value life.marks [])) life.marks;
  events = add_event input.event life.events;
}

-- `frame.events ?? []`
abbrev pub events_of : Slot (List LifeEvent) → List LifeEvent
events_of (value events) = events
events_of _ = []

-- `ingestPositionFrame`, and whether it publishes; a frame that is neither kind is dropped.
unfoldable pub ingest_position_frame : PositionInput → Lives → Lives × Bool
unfolding is_snapshot is_frame next_life
ingest_position_frame input s =
    if is_snapshot input
    then store_life (record input.life { events = some (events_of input.events) }) s
    else if is_frame input
    then store_life
        (next_life input (or_value (lookup input.life.id s.lives) (fresh_life input.life))) s
    else (s, false)
