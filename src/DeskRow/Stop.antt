-- ===== src/DeskRow/Stop.antt =====
-- frontend/src/lib/stoploss.ts: the stop of a lot, as the broker or the page wrote it. A state's code
-- is one of the broker's iota, which are whole numbers.
pub mod Again
pub mod Telemetry
use symm.Base.{
  ℕ, ◌^◌, ◌*◌, ◌/◌, String, Bool, true, false, not, ◌&&◌, ◌||◌, Option, none, some, List, [], ◌∷◌,
  ◌==◌, if◌then◌else◌, ◌>>=◌, or_else, or_value,
}
use symm.Base.Number.{
  ℤ, pos, negsuc, Number, finite, infinity, minus_infinity, nan, of_ℕ, is_finite, number_eq,
  number_lt,
}
use symm.Base.Json.{Json, undefined, null, bool, num, str, obj, Fields, get}
use symm.Lifecycle.{
  StoplossState, healthy, protected, critical, dangerous, triggered, DynamicStoploss,
}
use symm.DeskRow.{Host, or_json}

-- `Math.abs`
abbrev pub abs_number : Number → Number
abs_number (finite (negsuc n)) = finite (pos (ℕ.suc n))
abs_number minus_infinity = infinity
abs_number n = n

-- `Math.max(a, b)` and `Math.min(a, b)`
abbrev pub max_number : Number → Number → Number
max_number nan b = nan
max_number a nan = nan
max_number a b = if number_lt a b then b else a

abbrev pub min_number : Number → Number → Number
min_number nan b = nan
min_number a nan = nan
min_number a b = if number_lt b a then b else a

-- 1e-9, the double nearest to it
abbrev pub least_span : Number
least_span = finite (pos (4835703278458517 * 2 ^ 992))

-- `pick`: the first of the keys that is there
abbrev pub pick : Fields → List String → Json
pick raw [] = undefined
pick raw (key ∷ keys) = or_json (get key raw) (pick raw keys)

-- `STATE_LABELS`, with the state that `stateFromWire` gives each
abbrev pub state_of_label : String → Option StoplossState
state_of_label label =
    if label == "Healthy"
    then some healthy
    else if label == "Protected"
    then some protected
    else if label == "Critical"
    then some critical
    else if label == "Dangerous"
    then some dangerous
    else if label == "Triggered"
    then some triggered
    else if label == "Stalled"
    then some dangerous
    else none

-- `STATE_FROM_CODE`
abbrev pub state_of_code : Number → Option StoplossState
state_of_code code =
    if number_eq code (of_ℕ 0) || number_eq code (of_ℕ 1)
    then some healthy
    else if number_eq code (of_ℕ 2)
    then some dangerous
    else if number_eq code (of_ℕ 3)
    then some critical
    else if number_eq code (of_ℕ 4)
    then some protected
    else if number_eq code (of_ℕ 5)
    then some triggered
    else none

-- A text that is not empty
abbrev pub named_text : Json → Option String
named_text (str s) = if s == "" then none else some s
named_text _ = none

abbrev pub some_finite : Number → Option Number
some_finite n = if is_finite n then some n else none

module _ (host : Host) where
  -- `num`
  unfoldable pub finite_of : Json → Option Number
  finite_of (num n) = some_finite n
  finite_of (str s) = if host.trim s == "" then none else some_finite (host.number_of s)
  finite_of _ = none

  -- `stateFromWire`
  unfoldable pub state_from_wire : Fields → Option StoplossState
  state_from_wire raw =
      let labeled = pick raw ("state" ∷ "State" ∷ []) in
      let coded : Option StoplossState = (do code ← finite_of labeled; state_of_code code) in
      elim labeled [ str label ↦ or_else (state_of_label label) coded | _ ↦ coded ]

  -- The span that the proximity is measured on.
  abbrev pub span_of : Fields → Number → Number → Number
  span_of row peak floor =
      let target = finite_of (pick row ("ProfitTargetPct" ∷ "profit_target_pct" ∷ [])) in
      let loss = finite_of (pick row ("MaxLossPct" ∷ "max_loss_pct" ∷ [])) in
      let own = max_number least_span (host.sub peak floor) in
      elim target [
        | none ↦ own
        | some t ↦ elim loss [ none ↦ own | some l ↦ max_number least_span (host.sub t l) ]
      ]

  -- `Math.max(0, Math.min(1, 1 - room / span))`
  abbrev pub clamp_proximity : Number → Number → Number
  clamp_proximity room span =
      max_number (of_ℕ 0) (min_number (of_ℕ 1) (host.sub (of_ℕ 1) (host.div room span)))

  abbrev pub has_floor_of : Json → Number → Bool
  has_floor_of (bool true) floor = true
  has_floor_of undefined floor = true
  has_floor_of _ floor = is_finite floor

  abbrev pub count_of : Fields → String → Number
  count_of row key = or_value (finite_of (pick row (key ∷ []))) (of_ℕ 0)

  -- `normalizeStoploss`
  unfoldable pub normalize_stoploss : Json → Option DynamicStoploss
  normalize_stoploss (obj row) = do
    state ← state_from_wire row
    current ← finite_of (pick row ("current_pnl" ∷ "CurrentPnLPct" ∷ "current_pnl_pct" ∷ []))
    peak ← finite_of (pick row ("peak_pnl" ∷ "PeakPnLPct" ∷ "peak_pnl_pct" ∷ []))
    floor ← finite_of (pick row ("floor_pnl" ∷ "FloorPnLPct" ∷ "floor_pnl_pct" ∷ []))
    let initial = finite_of (pick row ("friction" ∷ "InitialPnLPct" ∷ "initial_pnl_pct" ∷ []))
    let room = or_value (finite_of (pick row ("room_pct" ∷ []))) (host.sub current floor)
    some (record {
      state = state;
      friction = elim initial [ none ↦ of_ℕ 0 | some n ↦ abs_number n ];
      current_pnl = current;
      peak_pnl = peak;
      floor_pnl = floor;
      has_floor = has_floor_of (get "has_floor" row) floor;
      room_pct = room;
      proximity =
          or_value (finite_of (pick row ("proximity" ∷ [])))
            (clamp_proximity room (span_of row peak floor));
      downside_pressure = count_of row "downside_pressure";
      downside_magnitude_ratio = count_of row "downside_magnitude_ratio";
      consecutive_down = count_of row "consecutive_down";
      exit_reason = named_text (pick row ("exit_reason" ∷ []));
      opened_at = named_text (pick row ("opened_at" ∷ "PreviousTime" ∷ []));
      last_peak_time = named_text (pick row ("last_peak_time" ∷ "CurrentTime" ∷ []));
    })
  normalize_stoploss _ = none
