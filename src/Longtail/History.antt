-- ===== src/Longtail/History.antt =====
-- The readers of a history's samples in longtail.ts. A value that is an array reads as an object
-- without the names that are asked.
use symm.Base.{Option, none, some, if◌then◌else◌, ◌>>=◌, or_else, or_value}
use symm.Base.Number.{Number, of_ℕ, number_lt}
use symm.Base.Json.{Json, arr, obj, Fields, end, get}
use symm.Listing.{as_finite_number}
use symm.DeskRow.{Host, or_json}
use symm.Longtail.{
  BookDeskStats, PathBookSnapshot, PolicySnapshot, ExitMix, OpenLotTelemetry, LongtailSample, Tiers,
  empty_book_stats, empty_paths, empty_policy, empty_stops, fifth,
}

-- The fields of a value that is an object.
abbrev pub object_of : Json → Option Fields
object_of (obj fields) = some fields
object_of (arr vs) = some end
object_of _ = none

-- `finiteOrNull`
abbrev pub finite_or_null : Json → Option Number
finite_or_null = as_finite_number

-- `countOrZero`
abbrev pub count_or_zero : Json → Number
count_or_zero v = or_value (finite_or_null v) (of_ℕ 0)

-- `bookFromHistory`
unfoldable pub book_from_history : Json → Option BookDeskStats
book_from_history v = do
  row ← object_of v
  some (record {
    closed = count_or_zero (get "closed" row);
    open_count = count_or_zero (get "open" row);
    wins = count_or_zero (get "wins" row);
    win_rate = finite_or_null (get "winRate" row);
    mean_return = finite_or_null (get "meanReturn" row);
    median_return = finite_or_null (get "medianReturn" row);
    worst_return = finite_or_null (get "worstReturn" row);
    avg_hold_ns = finite_or_null (get "avgHoldNs" row);
  })

-- `pathsFromHistory`
unfoldable pub paths_from_history : Json → PathBookSnapshot
paths_from_history v = elim (object_of v) [
  | none ↦ empty_paths
  | some row ↦ record {
    developed = finite_or_null (get "developed" row);
    promoted = finite_or_null (get "promoted" row);
    mean_resistance = finite_or_null (or_json (get "meanResistance" row) (get "meanThreshold" row));
    added = finite_or_null (get "added" row);
    removed = finite_or_null (get "removed" row);
  }
]

abbrev pub empty_mix : ExitMix Number
empty_mix = record {
  profit = of_ℕ 0;
  stop = of_ℕ 0;
  policy = of_ℕ 0;
  other = of_ℕ 0;
  total = of_ℕ 0;
}

-- `exitMixFromHistory`
unfoldable pub exit_mix_from_history : Json → ExitMix Number
exit_mix_from_history v = elim (object_of v) [
  | none ↦ empty_mix
  | some row ↦ record {
    profit = count_or_zero (get "profit" row);
    stop = count_or_zero (get "stop" row);
    policy = count_or_zero (get "policy" row);
    other = count_or_zero (get "other" row);
    total = count_or_zero (get "total" row);
  }
]

-- `stopsFromHistory`
unfoldable pub stops_from_history : Json → OpenLotTelemetry
stops_from_history v = elim (object_of v) [
  | none ↦ empty_stops
  | some row ↦ record {
    open_count = finite_or_null (get "open" row);
    invalidation = finite_or_null (get "invalidation" row);
    trailing = finite_or_null (get "trailing" row);
    damage = finite_or_null (get "damage" row);
    armed = finite_or_null (get "armed" row);
    max_proximity = finite_or_null (get "maxProximity" row);
  }
]

-- A reader for each ledger of an object.
abbrev pub tiers_from : {A : Type 0} → (Json → A) → Json → Tiers A
tiers_from read v =
    let row = or_value (object_of v) end in
    record {
      of_paper = read (get "paper" row);
      of_virtual = read (get "virtual" row);
      of_real = read (get "real" row);
    }

module _ (host : Host) where
  -- `policyFromHistory`
  unfoldable pub policy_from_history : Json → PolicySnapshot
  policy_from_history v = elim (object_of v) [
    | none ↦ empty_policy
    | some row ↦
        let checks = count_or_zero (get "checks" row) in
        let hits = count_or_zero (get "hits" row) in
        let rate : Option Number =
          if number_lt (of_ℕ 0) checks then some (host.div hits checks) else none in
        record {
          checks = checks;
          hits = hits;
          hit_rate = or_else (finite_or_null (get "hitRate" row)) rate;
        }
  ]

  -- `historySample`
  unfoldable pub history_sample : Json → Option LongtailSample
  history_sample v = do
    row ← object_of v
    at ← finite_or_null (get "at" row)
    paper_stats ← book_from_history (get "paper" row)
    virtual_stats ← book_from_history (get "virtual" row)
    some (record {
      at = at;
      books = record {
        of_paper = paper_stats;
        of_virtual = virtual_stats;
        of_real = or_value (book_from_history (get "real" row)) empty_book_stats;
      };
      paper_win = finite_or_null (get "paperWin" row);
      paper_edge = finite_or_null (get "paperEdge" row);
      real_win = finite_or_null (get "realWin" row);
      real_edge = finite_or_null (get "realEdge" row);
      real_armed = finite_or_null (get "realArmed" row);
      eligible_resistance = or_value (finite_or_null (get "eligibleResistance" row)) fifth;
      paths = paths_from_history (or_json (get "paths" row) (get "training" row));
      policy = policy_from_history (get "policy" row);
      exits = tiers_from exit_mix_from_history (get "exits" row);
      stops = tiers_from stops_from_history (get "stops" row);
    })
