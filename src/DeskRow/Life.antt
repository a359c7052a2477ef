-- ===== src/DeskRow/Life.antt =====
-- frontend/src/lib/desk-closed-lifecycle.ts and desk-tape-marks.ts: the round trip that a desk row
-- makes. A row's id and symbol are texts, as their casts say.
pub mod Contract
use Prim.Native.String
use symm.Base.{
  String, Bool, true, false, not, ◌&&◌, ◌||◌, Option, none, some, List, [], ◌∷◌, ◌==◌,
  if◌then◌else◌, ◌>>=◌, or_else, or_value, is_some,
}
use symm.Base.Number.{Number, of_ℕ, is_finite, number_lt}
use symm.Base.Json.{Json, undefined, null, num, str, Fields, get, string_or_empty}
use symm.Base.Text.{is_digit}
use symm.Lifecycle.{
  Slot, absent, value, Lifecycle, LifeEvent, LifeMark, LifeOutcome, DynamicStoploss,
}
use symm.DeskRow.{Host, decimal, SettledOutcome, settled_outcome, hold_between}
use symm.DeskRow.Totals.{zero_number}
use symm.DeskRow.Readout.{PositionReadout, position_readout}
use symm.DeskRow.Stop.{normalize_stoploss, named_text}

-- `bookFromRow`
unfoldable pub book_from_row : Fields → String
book_from_row row = or_value (named_text (get "book" row)) "paper"

abbrev pub slot_or_null : {A : Type 0} → Option A → Slot A
slot_or_null none = Slot.null
slot_or_null (some a) = value a

abbrev pub all_digits : String → Bool
all_digits String.[] = true
all_digits (String.◌∷◌ c s) = is_digit c && all_digits s

-- `/^\d+$/`
abbrev pub is_digits : String → Bool
is_digits s = not (s == "") && all_digits s

abbrev pub text_only : Json → Option String
text_only (str s) = some s
text_only _ = none

-- The tape ticks of a closed lot.
pub record TapeMarks : Type 0 where
  pub a : Number
  pub b : Number
  pub c : Number

-- `stopFieldsFromRow`, the fields that it sets besides nulls
pub record StopFields : Type 0 where
  pub stop_state : Option DynamicStoploss
  pub peak_pct : Option Number
  pub realized_pct : Option Number
  pub exit_trigger : Option String

-- A text with more after it, where there is more.
abbrev pub with_more : String → Option String → String
with_more text none = text
with_more text (some s) = String.◌++◌ text (String.◌++◌ " · " s)

-- `${entryPath ? " · ${entryPath}" : ""}` after a text
abbrev pub with_path : String → Option String → String
with_path text none = text
with_path text (some s) = if s == "" then text else with_more text (some s)

-- `list.join(", ")`
abbrev pub join_comma : List String → String
join_comma [] = ""
join_comma (s ∷ []) = s
join_comma (s ∷ t ∷ rest) = String.◌++◌ s (String.◌++◌ ", " (join_comma (t ∷ rest)))

abbrev pub event : String → String → String → LifeEvent
event at kind detail = record { at = at; kind = kind; detail = detail; fields = none }

module _ (host : Host) where
  -- `tickUint`
  unfoldable pub tick_uint : Json → Option Number
  tick_uint (num n) = if is_finite n && number_lt zero_number n then some n else none
  tick_uint (str s) = if is_digits (host.trim s) then some (host.number_of (host.trim s)) else none
  tick_uint _ = none

  -- `policyEpochFromRow`
  unfoldable pub policy_epoch_from_row : Fields → Option String
  policy_epoch_from_row row = elim (get "policy_epoch" row) [
    | undefined ↦ none
    | null ↦ none
    | str s ↦ if s == "" then none else some s
    | v ↦ some (host.text_of v)
  ]

  -- `tapeMarksFromDeskRow`
  unfoldable pub tape_marks_from_desk_row : Fields → Option TapeMarks
  tape_marks_from_desk_row row = do
    entry ← tick_uint (get "entry_tick" row)
    exit ← tick_uint (get "exit_tick" row)
    if number_lt exit entry then none else some (record { a = entry; b = entry; c = exit })

  unfoldable pub stop_fields_from_row : Fields → StopFields
  stop_fields_from_row row =
      let stop = normalize_stoploss host (get "stoploss" row) in
      record {
        stop_state = stop;
        peak_pct = elim stop [ none ↦ none | some s ↦ some s.peak_pnl ];
        realized_pct = decimal host (get "pnl_pct" row);
        exit_trigger = named_text (get "exit_trigger" row);
      }

  -- The product of three numbers that may be missing, else 0
  abbrev pub unrealized_of : PositionReadout → Number
  unrealized_of readout =
      or_value
        (do
          fraction ← readout.return_pct
          price ← readout.entry_price
          qty ← readout.qty
          some (host.mul (host.mul price qty) fraction))
        zero_number

  -- The mark of an open lot.
  unfoldable pub live_mark : PositionReadout → Option LifeMark
  live_mark readout = do
    mark ← readout.mark
    some (record {
      at = host.now;
      bid = mark;
      quantity = or_value readout.qty zero_number;
      entry_price = or_value readout.entry_price zero_number;
      unrealized = unrealized_of readout;
      unrealized_return = or_value readout.return_pct zero_number;
    })

  -- The round trip of an open lot.
  unfoldable pub open_life : Fields → String → String → Lifecycle
  unfolding book_from_row
  open_life row id opened_at =
      let live = live_mark (position_readout host row) in
      let stop = stop_fields_from_row row in
      let path = text_only (get "entry_path" row) in
      record {
        id = id;
        symbol = string_or_empty (get "symbol" row);
        status = "holding";
        policy_epoch = none;
        path = path;
        opened_at = opened_at;
        closed_at = Slot.null;
        events = some (event opened_at "opened" (with_path "desk lot opened" path) ∷ []);
        mark = slot_or_null live;
        stop_state = slot_or_null stop.stop_state;
        policy = Slot.null;
        peak_pct = slot_or_null stop.peak_pct;
        realized_pct = slot_or_null stop.realized_pct;
        pnl_trace = Slot.null;
        bars_held = Slot.null;
        exit_trigger = slot_or_null stop.exit_trigger;
        official_exit_pct = slot_or_null stop.realized_pct;
        marks = some (elim live [ none ↦ [] | some m ↦ m ∷ [] ]);
        outcome = absent;
        book = some (book_from_row row);
        path_found = some false;
        desk = some true;
        history = none;
        marks_a = absent;
        marks_b = absent;
        marks_c = absent;
      }

  -- `lifecycleFromDeskOpen`
  unfoldable pub lifecycle_from_desk_open : Fields → Option Lifecycle
  lifecycle_from_desk_open row = do
    id ← named_text (get "id" row)
    opened_at ← (position_readout host row).opened_at
    if (position_readout host row).closed then none else some (open_life row id opened_at)

  -- `settle?.x`
  abbrev pub of_settled :
      {A : Type 0} → Option SettledOutcome → (SettledOutcome → Option A) → Option A
  of_settled none read = none
  of_settled (some settle) read = read settle

  unfoldable pub outcome_of : Fields → Option LifeOutcome
  outcome_of row =
      let readout = position_readout host row in
      let settle = settled_outcome host row in
      do
        pnl ← or_else readout.return_pct (of_settled settle (λ s. s.pnl))
        pnl_pct ← or_else readout.return_pct_display (of_settled settle (λ s. s.pnl_pct))
        some (record {
          pnl = pnl;
          pnl_pct = pnl_pct;
          money = slot_or_null (decimal host (get "pnl" row));
          hold_ns =
              or_value
                (or_else (of_settled settle (λ s. s.hold_ns))
                  (hold_between host readout.closed_at readout.opened_at))
                zero_number;
          expected_hold_ns = none;
          triggers = some (or_value (of_settled settle (λ s. s.triggers)) ("desk settle" ∷ []));
          realized = absent;
          mark = absent;
          bars_held = absent;
          max_lifetime_bars = absent;
        })

  -- The texts of the two events of a closed lot.
  unfoldable pub open_detail : Option TapeMarks → Option String → String
  open_detail tape path =
      with_path
        (String.◌++◌ "desk open · tick " (elim tape [ none ↦ "—" | some t ↦ host.number_text t.b ]))
        path

  abbrev pub exit_text : Option TapeMarks → Option String
  exit_text none = none
  exit_text (some t) = some (String.◌++◌ "tick " (host.number_text t.c))

  unfoldable pub close_detail : Option TapeMarks → List String → Option Number → String
  close_detail tape [] none = with_more "closed" (exit_text tape)
  close_detail tape [] (some pct) =
      with_more (String.◌++◌ "return " (String.◌++◌ (host.to_fixed pct) "%")) (exit_text tape)
  close_detail tape (t ∷ triggers) pct = with_more (join_comma (t ∷ triggers)) (exit_text tape)

  -- The round trip of a closed lot.
  unfoldable pub closed_life : Fields → String → String → String → Lifecycle
  unfolding book_from_row
  closed_life row id opened_at closed_at =
      let settle = settled_outcome host row in
      let readout = position_readout host row in
      let pct = or_else readout.return_pct_display (of_settled settle (λ s. s.pnl_pct)) in
      let tape = tape_marks_from_desk_row row in
      let stop = stop_fields_from_row row in
      let path = text_only (get "entry_path" row) in
      let triggers = or_value (of_settled settle (λ s. s.triggers)) [] in
      record {
        id = id;
        symbol = string_or_empty (get "symbol" row);
        status = "closed";
        policy_epoch = policy_epoch_from_row row;
        path = path;
        opened_at = opened_at;
        closed_at = value closed_at;
        events = some (
            event opened_at "opened" (open_detail tape path)
            ∷ event closed_at "closed" (close_detail tape triggers pct)
            ∷ []);
        mark = absent;
        stop_state = slot_or_null stop.stop_state;
        policy = Slot.null;
        peak_pct = slot_or_null stop.peak_pct;
        realized_pct = slot_or_null stop.realized_pct;
        pnl_trace = Slot.null;
        bars_held = Slot.null;
        exit_trigger = slot_or_null stop.exit_trigger;
        official_exit_pct = slot_or_null stop.realized_pct;
        marks = none;
        outcome = slot_or_null (outcome_of row);
        book = some (book_from_row row);
        path_found = some false;
        desk = some true;
        history = none;
        marks_a = elim tape [ none ↦ Slot.null | some t ↦ value t.a ];
        marks_b = elim tape [ none ↦ Slot.null | some t ↦ value t.b ];
        marks_c = elim tape [ none ↦ Slot.null | some t ↦ value t.c ];
      }

  -- `lifecycleFromDeskClosed`
  unfoldable pub lifecycle_from_desk_closed : Fields → Option Lifecycle
  lifecycle_from_desk_closed row = do
    id ← named_text (get "id" row)
    opened_at ← (position_readout host row).opened_at
    closed_at ← (position_readout host row).closed_at
    if (position_readout host row).closed
        then some (closed_life row id opened_at closed_at)
        else none
