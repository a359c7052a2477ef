-- ===== src/Longtail.antt =====
-- frontend/src/collections/longtail.ts: the samples of the learning trajectory and what is read of
-- them. This file has the data and the tones of single values.
pub mod Exits
pub mod Judge
pub mod Summaries
pub mod History
pub mod Window
mod Tests
use symm.Base.{ℕ, ◌-◌, ◌*◌, ◌^◌, String, Bool, true, false, Option, none, some, if◌then◌else◌}
use symm.Base.Number.{Number, finite, pos, negsuc, of_ℕ, number_le, number_lt}
use symm.Book.{Book, paper, virtual, real}
use symm.Explore.{explore_prune_threshold}

pub data Trend : Type 0 where
  up down flat : Trend

pub data Tone : Type 0 where
  good warn bad info neutral : Tone

-- Fractions of the source, in units of 2 ^ -1074: 0.01, 0.15, 0.2, 0.45, 0.5 and 0.55
abbrev pub hundredth : Number
hundredth = finite (pos (5764607523034235 * 2 ^ 1015))

abbrev pub three_twentieths : Number
three_twentieths = finite (pos (5404319552844595 * 2 ^ 1019))

abbrev pub fifth : Number
fifth = finite (pos (3602879701896397 * 2 ^ 1020))

abbrev pub low_rate : Number
low_rate = finite (pos (8106479329266893 * 2 ^ 1020))

abbrev pub half : Number
half = finite (pos (1 * 2 ^ 1073))

abbrev pub high_rate : Number
high_rate = finite (pos (2476979795053773 * 2 ^ 1022))

-- -0.01: one unit less than the natural number of units, as `negsuc` counts.
abbrev pub minus_hundredth : Number
minus_hundredth = finite (negsuc (5764607523034235 * 2 ^ 1015 - 1))

-- `toneColor`, `toneVariant` and `alertVariant`
unfoldable pub tone_color : Tone → String
tone_color good = "var(--up)"
tone_color warn = "var(--warn)"
tone_color bad = "var(--down)"
tone_color info = "var(--info)"
tone_color neutral = "var(--f3)"

unfoldable pub tone_variant : Tone → String
tone_variant good = "success"
tone_variant warn = "warning"
tone_variant bad = "error"
tone_variant info = "info"
tone_variant neutral = "disabled"

unfoldable pub alert_variant : Tone → String
alert_variant good = "success"
alert_variant warn = "warning"
alert_variant bad = "error"
alert_variant _ = "info"

-- `winRateTone`
unfoldable pub win_rate_tone : Option Number → Tone
win_rate_tone none = neutral
win_rate_tone (some n) =
    if number_le high_rate n then good else if number_le low_rate n then warn else bad

-- `returnTone`
unfoldable pub return_tone : Option Number → Tone
return_tone none = neutral
return_tone (some n) =
    if number_lt (of_ℕ 0) n then good else if number_le minus_hundredth n then warn else bad

-- `matchTone`
unfoldable pub match_tone : Option Number → Tone
match_tone none = neutral
match_tone (some n) = if number_le half n then good else if number_le fifth n then warn else bad

-- `resistanceTone`
unfoldable pub resistance_tone : Option Number → Number → Tone
resistance_tone none floor = neutral
resistance_tone (some n) floor =
    if number_le n floor
    then good
    else if number_le n half
    then info
    else if number_le n explore_prune_threshold
    then warn
    else bad

-- `BookDeskStats`
pub record BookDeskStats : Type 0 where
  pub closed : Number
  pub open_count : Number
  pub wins : Number
  pub win_rate : Option Number
  pub mean_return : Option Number
  pub median_return : Option Number
  pub worst_return : Option Number
  pub avg_hold_ns : Option Number

-- `PathBookSnapshot`
pub record PathBookSnapshot : Type 0 where
  pub developed : Option Number
  pub promoted : Option Number
  pub mean_resistance : Option Number
  pub added : Option Number
  pub removed : Option Number

-- `PolicySnapshot`
pub record PolicySnapshot : Type 0 where
  pub checks : Number
  pub hits : Number
  pub hit_rate : Option Number

-- `ExitMix`, of counts or of numbers that a history holds
pub record ExitMix (A : Type 0) : Type 0 where
  pub profit : A
  pub stop : A
  pub policy : A
  pub other : A
  pub total : A

-- `OpenLotTelemetry`
pub record OpenLotTelemetry : Type 0 where
  pub open_count : Option Number
  pub invalidation : Option Number
  pub trailing : Option Number
  pub damage : Option Number
  pub armed : Option Number
  pub max_proximity : Option Number

-- A value for each ledger.
pub record Tiers (A : Type 0) : Type 0 where
  pub of_paper : A
  pub of_virtual : A
  pub of_real : A

abbrev pub tier_of : {A : Type 0} → Tiers A → Book → A
tier_of tiers paper = tiers.of_paper
tier_of tiers virtual = tiers.of_virtual
tier_of tiers real = tiers.of_real

-- `LongtailSample`
pub record LongtailSample : Type 0 where
  pub at : Number
  pub books : Tiers BookDeskStats
  pub paper_win : Option Number
  pub paper_edge : Option Number
  pub real_win : Option Number
  pub real_edge : Option Number
  pub real_armed : Option Number
  pub eligible_resistance : Number
  pub paths : PathBookSnapshot
  pub policy : PolicySnapshot
  pub exits : Tiers (ExitMix Number)
  pub stops : Tiers OpenLotTelemetry

-- `Verdict`
pub record Verdict : Type 0 where
  pub label : String
  pub tone : Tone

-- `emptyBookStats`, `emptyExitMix`, `emptyStops`, `emptyPaths` and `emptyPolicy`
abbrev pub empty_book_stats : BookDeskStats
empty_book_stats = record {
  closed = of_ℕ 0;
  open_count = of_ℕ 0;
  wins = of_ℕ 0;
  win_rate = none;
  mean_return = none;
  median_return = none;
  worst_return = none;
  avg_hold_ns = none;
}

abbrev pub empty_exit_mix : ExitMix ℕ
empty_exit_mix = record { profit = 0; stop = 0; policy = 0; other = 0; total = 0 }

abbrev pub empty_stops : OpenLotTelemetry
empty_stops = record {
  open_count = none;
  invalidation = none;
  trailing = none;
  damage = none;
  armed = none;
  max_proximity = none;
}

abbrev pub empty_paths : PathBookSnapshot
empty_paths = record {
  developed = none;
  promoted = none;
  mean_resistance = none;
  added = none;
  removed = none;
}

abbrev pub empty_policy : PolicySnapshot
empty_policy = record { checks = of_ℕ 0; hits = of_ℕ 0; hit_rate = none }
