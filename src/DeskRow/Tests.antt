-- ===== src/DeskRow/Tests.antt =====
-- Desk rows at fixed inputs, with a host of exact sums, and the witnesses of the theorems on them.
use symm.Base.{◌+◌, String, ◌≡◌, refl, true, false, none, some, List, [], ◌∷◌, ◌++◌, All, inl, inr}
use symm.Base.Number.{Number, finite, pos, nan, of_ℕ}
use symm.Base.Json.{str, num, arr, obj, nil, cons, Fields, field, end}
use symm.Lifecycle.{protected, DynamicStoploss}
use symm.DeskRow.{Host, decimal, date_text, is_decimal}
use symm.DeskRow.Totals.{
  tally, tally_fill, identity_of, count_fill, add_fill, totals_of, empty_tally, execution_totals,
}
use symm.DeskRow.Totals.Replay.{IsNamed, tally-replay}
use symm.DeskRow.Readout.{position_readout, is_fully_sold}
use symm.DeskRow.Stop.{normalize_stoploss}
use symm.DeskRow.Stop.Telemetry
use symm.DeskRow.Stop.Telemetry.{held_verdict, unalarmed_verdict, priced_verdict, HeldVerdict}
use symm.DeskRow.Stop.Again.{stop_fields, IsNormal, normalize_stoploss-stop_fields}
use symm.DeskRow.Life.{
  lifecycle_from_desk_open, lifecycle_from_desk_closed, tick_uint, tape_marks_from_desk_row,
}
use symm.Lifecycle.Desk.{open_ids, ingest_desk_closed_lots}
use symm.Lifecycle.Desk.Mirror.{AreOpenRows, ingest_desk_closed_lots-AreOpenRows}
use symm.DeskRow.Life.Contract.{desk_row-IsReading, IsReading, desk_reader}

abbrev add_numbers : Number → Number → Number
add_numbers (finite (pos a)) (finite (pos b)) = finite (pos (a + b))
add_numbers _ _ = nan

-- Dates and texts stay as they are, and a decimal text is 2.
abbrev host : Host
host = record {
  trim = λ s. s;
  to_lower = λ s. s;
  number_of = λ s. of_ℕ 2;
  text_of = λ v. "text";
  to_fixed = λ n. "2.00";
  number_text = λ n. "2";
  add = add_numbers;
  sub = λ a b. a;
  mul = λ a b. b;
  div = λ a b. a;
  to_iso = λ s. some s;
  parse_date = λ s. of_ℕ 0;
  now = "now";
}

abbrev fill : String → String → Fields
fill side id = field "side" (str side) (
    field "exec_id" (str id) (
      field "last_qty" (num (of_ℕ 3))
        (field "cost" (num (of_ℕ 6)) (field "timestamp" (str "today") end))))

abbrev fills : List Fields
fills = fill "buy" "e1" ∷ fill "sell" "e2" ∷ fill "buy" "e3" ∷ []

fills-IsNamed : All (IsNamed host "buy") fills
unfolding identity_of
fills-IsNamed = (inr ("e1", refl), (inl refl, (inr ("e3", refl), tt)))

tally-replay_example :
    totals_of host (tally host "buy" (fills ++ fills) empty_tally)
    ≡ totals_of host (tally host "buy" fills empty_tally)
tally-replay_example = tally-replay host "buy" fills fills-IsNamed

bought : totals_of host (tally host "buy" (fills ++ fills) empty_tally) ≡ record {
  qty = some (of_ℕ 6);
  cost = some (of_ℕ 12);
  fee = none;
  vwap = some (of_ℕ 12);
  first_at = some "today";
  last_at = some "today";
}
unfolding totals_of tally tally_fill identity_of count_fill add_fill decimal date_text
bought = refl

abbrev stop : DynamicStoploss
stop = record {
  state = protected;
  friction = of_ℕ 1;
  current_pnl = of_ℕ 2;
  peak_pnl = of_ℕ 3;
  floor_pnl = of_ℕ 1;
  has_floor = true;
  room_pct = of_ℕ 1;
  proximity = of_ℕ 0;
  downside_pressure = of_ℕ 0;
  downside_magnitude_ratio = of_ℕ 0;
  consecutive_down = of_ℕ 4;
  exit_reason = none;
  opened_at = some "today";
  last_peak_time = none;
}

stop-IsNormal : IsNormal stop
stop-IsNormal = record {
  friction = (refl, refl);
  current_pnl = refl;
  peak_pnl = refl;
  floor_pnl = refl;
  has_floor = refl;
  room_pct = refl;
  proximity = refl;
  downside_pressure = refl;
  downside_magnitude_ratio = refl;
  consecutive_down = refl;
  exit_reason = tt;
  opened_at = refl;
  last_peak_time = tt;
}

normalize_stoploss-stop_fields_example :
    normalize_stoploss host (obj (stop_fields stop)) ≡ some stop
normalize_stoploss-stop_fields_example = normalize_stoploss-stop_fields host stop stop-IsNormal

abbrev row : Fields
row = field "id" (str "L1") (
    field "symbol" (str "BTC/USD") (
      field "opened_at" (str "today") (
        field "entry_tick" (num (of_ℕ 4)) (
          field "exit_tick" (num (of_ℕ 9)) (
            field "fills" (arr (cons (obj (fill "buy" "e1")) (cons (obj (fill "sell" "e2")) nil)))
              end)))))

desk_row-IsReading_example :
    IsReading host row (lifecycle_from_desk_open host row) (lifecycle_from_desk_closed host row)
desk_row-IsReading_example = desk_row-IsReading host row

-- A row whose sells reach its buys is closed at its last sell.
sold : (position_readout host row).closed ≡ true
unfolding position_readout execution_totals is_fully_sold totals_of tally tally_fill identity_of
    count_fill add_fill decimal date_text
sold = refl

ticks : tape_marks_from_desk_row host row ≡ some (record { a = of_ℕ 4; b = of_ℕ 4; c = of_ℕ 9 })
unfolding tape_marks_from_desk_row tick_uint
ticks = refl

decimals : is_decimal "-1.5e-7" ≡ true
unfolding is_decimal
decimals = refl

not_decimal : is_decimal "1e" ≡ false
unfolding is_decimal
not_decimal = refl

-- The desk's round trips mirror rows that are read by this reader.
mirrored_row :
    AreOpenRows
      (open_ids (desk_reader host) (row ∷ []))
      (ingest_desk_closed_lots
        (desk_reader host)
        (row ∷ [])
        (record { lives = []; stamps = [] })).0.lives
mirrored_row =
    ingest_desk_closed_lots-AreOpenRows (desk_reader host) (row ∷ [])
      (record { lives = []; stamps = [] })

held_at_floor :
    held_verdict host
      (λ n. "1.0")
      (λ n. "1")
      (record {
        state = some protected;
        current = some (of_ℕ 2);
        peak = none;
        floor = none;
        friction = none;
        has_floor = true;
        proximity = some (of_ℕ 1);
        downside_pressure = none;
        exit_reason = none;
        room_pct = none;
      })
    ≡ record { text = "At the profit floor — stop should arm"; tone = Telemetry.bad }
unfolding held_verdict unalarmed_verdict priced_verdict
held_at_floor = refl
