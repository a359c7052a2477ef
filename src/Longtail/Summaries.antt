-- ===== src/Longtail/Summaries.antt =====
-- The summaries of longtail.ts: of a ledger's lots, of their stops, of the path book and of the
-- matches. The lists that are sorted or added up hold finite numbers.
use symm.Base.{
  ℕ, ◌+◌, ◌-◌, ◌*◌, ◌^◌, ◌/◌, ◌%◌, String, Bool, true, false, not, ◌&&◌, ◌||◌, Option, none, some,
  List, [], ◌∷◌, if◌then◌else◌, ltb, eqb, keep, length, Dict, lookup, map, get_or, is_some,
}
use symm.Base.Number.{Number, finite, pos, infinity, of_ℕ, is_finite, number_lt, number_le}
use symm.Base.Json.{Fields, get}
use symm.Book.{Book, on_book}
use symm.Explore.{explore_prune_threshold, is_path_book_key}
use symm.Cognition.{Match}
use symm.Cognition.Policy.{is_member, union}
use symm.Lifecycle.{StoplossState, critical, dangerous, triggered, DynamicStoploss}
use symm.DeskRow.{Host}
use symm.DeskRow.Readout.{position_readout, open_on_book, closed_on_book}
use symm.DeskRow.Stop.{normalize_stoploss, min_number}
use symm.Longtail.{
  BookDeskStats, PathBookSnapshot, PolicySnapshot, OpenLotTelemetry, empty_paths, empty_policy,
}

-- 0.7
abbrev pub armed_level : Number
armed_level = finite (pos (3152519739159347 * 2 ^ 1022))

abbrev pub insert_number : Number → List Number → List Number
insert_number n [] = n ∷ []
insert_number n (m ∷ ms) = if number_lt m n then m ∷ insert_number n ms else n ∷ m ∷ ms

-- `[...values].sort((a, b) => a - b)`
unfoldable pub sort_numbers : List Number → List Number
sort_numbers [] = []
sort_numbers (n ∷ ns) = insert_number n (sort_numbers ns)

-- The values of a field of rows, where there are any.
abbrev pub present : {A : Type 0} → List (Option A) → List A
present [] = []
present (none ∷ os) = present os
present (some a ∷ os) = a ∷ present os

-- The smallest of the numbers, from one on
abbrev pub least : Number → List Number → Number
least n [] = n
least n (m ∷ ms) = least (min_number n m) ms

abbrev pub counted : ℕ → Option Number
counted n = if ltb 0 n then some (of_ℕ n) else none

-- The counters of `summarizeStops`.
pub record StopTally : Type 0 where
  pub pressures : List Number
  pub proximities : List Number
  pub magnitudes : List Number
  pub armed : ℕ
  pub max_proximity : Number
  pub with_state : ℕ

abbrev pub is_alarming : StoplossState → Bool
is_alarming critical = true
is_alarming dangerous = true
is_alarming triggered = true
is_alarming _ = false

abbrev pub is_above : Number → Bool
is_above n = number_lt (of_ℕ 0) n

-- One turn of the loop, on a row that has a stop; the samples are kept newest first.
unfoldable pub tally_stop : DynamicStoploss → StopTally → StopTally
tally_stop stop t = record {
  pressures =
      if is_above stop.downside_pressure then stop.downside_pressure ∷ t.pressures else t.pressures;
  proximities =
      if stop.has_floor && is_above stop.proximity
      then stop.proximity ∷ t.proximities
      else t.proximities;
  magnitudes =
      if is_above stop.downside_magnitude_ratio
      then stop.downside_magnitude_ratio ∷ t.magnitudes
      else t.magnitudes;
  armed =
      if is_alarming stop.state
        || (number_le armed_level stop.proximity || number_le armed_level stop.downside_pressure)
      then t.armed + 1
      else t.armed;
  max_proximity =
      if number_lt t.max_proximity stop.proximity then stop.proximity else t.max_proximity;
  with_state = t.with_state + 1;
}

abbrev pub backwards : List Number → List Number → List Number
backwards [] done = done
backwards (n ∷ ns) done = backwards ns (n ∷ done)

-- The counters of `summarizePathBook`.
pub record PathTally : Type 0 where
  pub developed : ℕ
  pub promoted : ℕ
  pub resistances : List Number

-- The loop over the active keys, from the last one.
unfoldable pub tally_paths : Dict Number → Number → List String → PathTally
tally_paths thresholds eligible [] = record { developed = 0; promoted = 0; resistances = [] }
tally_paths thresholds eligible (key ∷ keys) =
    let rest = tally_paths thresholds eligible keys in
    let unknown : PathTally = record rest { developed = rest.developed + 1 } in
    elim (lookup key thresholds) [
      | none ↦ unknown
      | some n ↦
          if not (is_finite n)
          then unknown
          else if number_lt explore_prune_threshold n
          then rest
          else record {
            developed = rest.developed + 1;
            promoted = if number_le n eligible then rest.promoted + 1 else rest.promoted;
            resistances = n ∷ rest.resistances;
          }
    ]

-- The keys whose churn is counted.
unfoldable pub active_keys : Dict Number → List String → List String
active_keys thresholds policy_keys = elim (keep is_path_book_key policy_keys) [
  | key ∷ keys ↦ key ∷ keys
  | [] ↦ keep is_path_book_key (map (λ (e : String × Number). e.0) thresholds)
]

-- How many of the keys are not among others
abbrev pub missing_from : List String → List String → ℕ
missing_from others keys = length (keep (λ key. not (is_member others key)) keys)

module _ (host : Host) where
  abbrev pub sum_of : Number → List Number → Number
  sum_of sum [] = sum
  sum_of sum (n ∷ ns) = sum_of (host.add sum n) ns

  -- `mean`
  unfoldable pub mean : List Number → Option Number
  mean [] = none
  mean (n ∷ ns) = some (host.div (sum_of (of_ℕ 0) (n ∷ ns)) (of_ℕ (length (n ∷ ns))))

  -- `median` of a list that is not empty
  unfoldable pub median : List Number → Number
  median values =
      let sorted = sort_numbers values in
      let mid = length sorted / 2 in
      if eqb (length sorted % 2) 0
      then host.div (host.add (get_or sorted (mid - 1) (of_ℕ 0)) (get_or sorted mid (of_ℕ 0)))
          (of_ℕ 2)
      else get_or sorted mid (of_ℕ 0)

  -- `summarizeBook`
  unfoldable pub summarize_book : List Fields → Book → BookDeskStats
  summarize_book rows book =
      let settled =
        keep (λ row. is_some (position_readout host row).return_pct)
          (closed_on_book host rows book) in
      let scored = keep (λ row. on_book row book) settled in
      let returns = present (map (λ row. (position_readout host row).return_pct) scored) in
      let wins = length (keep is_above returns) in
      let holds =
        keep is_above (present (map (λ row. (position_readout host row).hold_ns) settled)) in
      let is_scored = ltb 0 (length returns) in
      record {
        closed = of_ℕ (length scored);
        open_count = of_ℕ (length (open_on_book host (keep (λ row. on_book row book) rows) book));
        wins = of_ℕ wins;
        win_rate = if is_scored then some (host.div (of_ℕ wins) (of_ℕ (length returns))) else none;
        mean_return = mean returns;
        median_return = if is_scored then some (median returns) else none;
        worst_return = if is_scored then some (least infinity returns) else none;
        avg_hold_ns = mean holds;
      }

  unfoldable pub tally_stops : List Fields → StopTally → StopTally
  tally_stops [] t = t
  tally_stops (row ∷ rows) t = elim (normalize_stoploss host (get "stoploss" row)) [
    | none ↦ tally_stops rows t
    | some stop ↦ tally_stops rows (tally_stop stop t)
  ]

  -- `summarizeStops`
  unfoldable pub summarize_stops : List Fields → Book → OpenLotTelemetry
  summarize_stops rows book =
      let lots = open_on_book host rows book in
      let t = tally_stops lots (record {
        pressures = [];
        proximities = [];
        magnitudes = [];
        armed = 0;
        max_proximity = of_ℕ 0;
        with_state = 0;
      }) in
      record {
        open_count = counted (length lots);
        invalidation = mean (backwards t.pressures []);
        trailing = mean (backwards t.proximities []);
        damage = mean (backwards t.magnitudes []);
        armed = if ltb 0 t.with_state then some (of_ℕ t.armed) else none;
        max_proximity =
            if ltb 0 t.with_state && is_above t.max_proximity then some t.max_proximity else none;
      }

  -- `summarizePathBook`; a set of keys is a list of distinct ones.
  unfoldable pub summarize_path_book :
      Dict Number → List String → Number → Option (List String) → PathBookSnapshot
  summarize_path_book thresholds policy_keys eligible prior =
      let active = active_keys thresholds policy_keys in
      let t = tally_paths thresholds eligible active in
      let current = union [] active in
      let is_empty = eqb (length (keep is_path_book_key policy_keys) + length thresholds) 0 in
      if is_empty then empty_paths else record {
        developed = counted t.developed;
        promoted = if ltb 0 t.developed then some (of_ℕ t.promoted) else none;
        mean_resistance = mean t.resistances;
        added = elim prior [ none ↦ none | some keys ↦ some (of_ℕ (missing_from keys current)) ];
        removed = elim prior [ none ↦ none | some keys ↦ some (of_ℕ (missing_from current keys)) ];
      }

  -- `summarizePolicy`
  unfoldable pub summarize_policy : Dict Match → PolicySnapshot
  summarize_policy [] = empty_policy
  summarize_policy (e ∷ matches) =
      let rows = map (λ (e : String × Match). e.1) (e ∷ matches) in
      let hits = length (keep (λ found. found.stored) rows) in
      record {
        checks = of_ℕ (length rows);
        hits = of_ℕ hits;
        hit_rate = some (host.div (of_ℕ hits) (of_ℕ (length rows)));
      }
