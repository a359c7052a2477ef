-- ===== src/GridPins.antt =====
-- frontend/src/components/learning/grid-pins.ts: which metrics stand at which region of the grid.
use Prim.Native.String
use symm.Base.{
  ℕ, ◌+◌, String, List, [], ◌∷◌, ◌++◌, ◌≡◌, refl, if◌then◌else◌, leb, ltb, eqb, any, Dict, length,
}
use symm.Base.Text.{decimal}

abbrev pub region_count : ℕ
region_count = 23

-- `REGION_METRIC_PINS`
abbrev pub region_metric_pins : Dict (Dict (List ℕ))
region_metric_pins =
    (
      "cvd",
      ("drive", 0 ∷ [])
          ∷ ("net_fraction", 0 ∷ [])
          ∷ ("balance", 1 ∷ [])
          ∷ ("starvation", 2 ∷ [])
          ∷ ("absorption", 3 ∷ [])
          ∷ ("net", 3 ∷ [])
          ∷ ("value", 0 ∷ [])
          ∷ [],
    )
    ∷ (
      "pumpdump",
      ("compression", 0 ∷ 18 ∷ [])
          ∷ ("precursor", 0 ∷ [])
          ∷ ("rvol", 2 ∷ [])
          ∷ ("exhaustion", 3 ∷ 8 ∷ 17 ∷ [])
          ∷ ("ignition", 6 ∷ [])
          ∷ ("trend", 5 ∷ [])
          ∷ ("spread", 14 ∷ [])
          ∷ ("value", 0 ∷ [])
          ∷ ("strength", 0 ∷ [])
          ∷ [],
    )
    ∷ (
      "correlation",
      ("herd_score", 1 ∷ 18 ∷ 20 ∷ [])
          ∷ ("strength", 1 ∷ [])
          ∷ ("peak_score", 18 ∷ [])
          ∷ ("alpha_score", 20 ∷ [])
          ∷ ("noise_score", 19 ∷ [])
          ∷ ("stress_score", 17 ∷ 19 ∷ [])
          ∷ ("correlation", 1 ∷ [])
          ∷ ("energy", 1 ∷ [])
          ∷ [],
    )
    ∷ (
      "leadlag",
      ("inefficient_score", 1 ∷ [])
          ∷ ("sync_score", 1 ∷ 20 ∷ [])
          ∷ ("decoupled_score", 19 ∷ [])
          ∷ ("stall_score", 19 ∷ [])
          ∷ ("strength", 1 ∷ [])
          ∷ [],
    )
    ∷ (
      "depthflow",
      ("loaded_score", 2 ∷ 5 ∷ 7 ∷ [])
          ∷ ("thin_score", 4 ∷ 8 ∷ 18 ∷ 21 ∷ [])
          ∷ ("spoof_score", 4 ∷ [])
          ∷ ("hypothesis_separation", 6 ∷ [])
          ∷ ("neutral_score", 7 ∷ [])
          ∷ ("value", 7 ∷ [])
          ∷ [],
    )
    ∷ (
      "toxicity",
      ("support_score", 1 ∷ 7 ∷ 16 ∷ 22 ∷ [])
          ∷ ("bluff_score", 4 ∷ [])
          ∷ ("vacuum_score", 4 ∷ 18 ∷ 21 ∷ [])
          ∷ ("value", 4 ∷ [])
          ∷ ("strength", 4 ∷ [])
          ∷ [],
    )
    ∷ (
      "morphology",
      ("bid_notional_lean", 2 ∷ [])
          ∷ ("ask_vacuum", 5 ∷ [])
          ∷ ("shape_stable", 7 ∷ [])
          ∷ ("value", 7 ∷ [])
          ∷ ("strength", 7 ∷ [])
          ∷ [],
    )
    ∷ (
      "hawkes",
      ("spectral_radius", 6 ∷ 18 ∷ [])
          ∷ ("branching_asymmetry", 6 ∷ [])
          ∷ ("total_buy_descendants", 6 ∷ [])
          ∷ ("total_sell_descendants", 6 ∷ [])
          ∷ ("buy_arrival_rate", 7 ∷ [])
          ∷ ("sell_arrival_rate", 8 ∷ [])
          ∷ ("immediate_buy_offspring", 6 ∷ [])
          ∷ ("immediate_sell_offspring", 6 ∷ [])
          ∷ ("maturity", 18 ∷ [])
          ∷ [],
    )
    ∷ (
      "sentiment",
      ("surge_score", 7 ∷ 18 ∷ [])
          ∷ ("breadth", 7 ∷ 18 ∷ [])
          ∷ ("slump_score", 8 ∷ 17 ∷ [])
          ∷ ("divergent_score", 19 ∷ [])
          ∷ ("change", 12 ∷ [])
          ∷ ("value", 18 ∷ [])
          ∷ ("strength", 18 ∷ [])
          ∷ [],
    )
    ∷ (
      "liquidity",
      ("scarcity_score", 8 ∷ 13 ∷ 21 ∷ [])
          ∷ ("median_score", 14 ∷ 22 ∷ [])
          ∷ ("depth_score", 16 ∷ 22 ∷ [])
          ∷ ("value", 14 ∷ [])
          ∷ ("strength", 14 ∷ [])
          ∷ [],
    )
    ∷ []

-- `regionCategoryIndex`
unfoldable pub region_category_index : ℕ → ℕ
region_category_index region_key =
    if leb region_key 2
    then 0
    else if leb region_key 5
    then 1
    else if leb region_key 8
    then 2
    else 3

-- `CATEGORY_NAMES` at an index
abbrev pub category_name : ℕ → String
category_name ℕ.zero = "ENTER"
category_name (ℕ.suc ℕ.zero) = "EXIT"
category_name (ℕ.suc (ℕ.suc ℕ.zero)) = "HOLD"
category_name _ = "ORACLE"

-- `CanonicalPinDef`
pub record CanonicalPinDef : Type 0 where
  pub id : String
  pub source : String
  pub metric : String
  pub cluster : ℕ
  pub region_id : String
  pub category : ℕ
  pub category_name : String

-- `R${String(regionKey).padStart(2, "0")}`
unfoldable pub region_id : ℕ → String
unfolding decimal
region_id region_key = String.◌++◌ (if ltb region_key 10 then "R0" else "R") (decimal region_key)

abbrev pub colon : String → String → String
colon a b = String.◌++◌ a (String.◌++◌ ":" b)

unfoldable pub pin_at : ℕ → String → String → CanonicalPinDef
unfolding region_id region_category_index
pin_at region_key source metric = record {
  id = colon source (colon metric (region_id region_key));
  source = source;
  metric = metric;
  cluster = region_key;
  region_id = region_id region_key;
  category = region_category_index region_key;
  category_name = category_name (region_category_index region_key);
}

-- The pins of one region, in the order of the table.
unfoldable pub metric_pins : ℕ → String → Dict (List ℕ) → List CanonicalPinDef
unfolding pin_at
metric_pins region_key source [] = []
metric_pins region_key source ((metric, regions) ∷ metrics) =
    let rest = metric_pins region_key source metrics in
    if any (eqb region_key) regions then pin_at region_key source metric ∷ rest else rest

unfoldable pub region_pins : ℕ → Dict (Dict (List ℕ)) → List CanonicalPinDef
unfolding metric_pins
region_pins region_key [] = []
region_pins region_key ((source, metrics) ∷ sources) =
    metric_pins region_key source metrics ++ region_pins region_key sources

-- The pins of `n` regions from one on.
unfoldable pub pins_from : ℕ → ℕ → List CanonicalPinDef
unfolding region_pins
pins_from region_key ℕ.zero = []
pins_from region_key (ℕ.suc n) =
    region_pins region_key region_metric_pins ++ pins_from (region_key + 1) n

-- `getCanonicalPinDefs`
unfoldable pub get_canonical_pin_defs : List CanonicalPinDef
unfolding pins_from
get_canonical_pin_defs = pins_from 0 region_count

-- Every region that a metric names adds one; a list's index is the region, and the table names none
-- outside the grid.
abbrev pub count_in : ℕ → List ℕ → ℕ
count_in region_key [] = 0
count_in region_key (r ∷ regions) =
    let rest = count_in region_key regions in if eqb region_key r then rest + 1 else rest

unfoldable pub count_metrics : ℕ → Dict (List ℕ) → ℕ
count_metrics region_key [] = 0
count_metrics region_key ((metric, regions) ∷ metrics) =
    count_in region_key regions + count_metrics region_key metrics

-- `getCanonicalRegionCounts()[regionKey]`
unfoldable pub canonical_region_count : ℕ → Dict (Dict (List ℕ)) → ℕ
unfolding count_metrics
canonical_region_count region_key [] = 0
canonical_region_count region_key ((source, metrics) ∷ sources) =
    count_metrics region_key metrics + canonical_region_count region_key sources

seven : canonical_region_count 7 region_metric_pins ≡ 10
unfolding canonical_region_count
seven = refl

seven_pins : length (region_pins 7 region_metric_pins) ≡ 10
unfolding region_pins
seven_pins = refl
