-- ===== src/Longtail/Judge.antt =====
-- `tierStats`, `trendOf`, `signFlips` and `verdict` of longtail.ts.
pub mod Green
use symm.Base.{
  ℕ, ◌-◌, ◌*◌, ◌^◌, String, Bool, true, false, not, ◌&&◌, ◌||◌, Option, none, some, List, [], ◌∷◌,
  if◌then◌else◌, or_value, or_else, take_last, leb, is_some,
}
use symm.Base.Number.{
  Number, finite, pos, negsuc, infinity, minus_infinity, nan, of_ℕ, is_finite, number_eq, number_lt,
  number_le,
}
use symm.Book.{Book, paper, virtual, real}
use symm.DeskRow.{Host}
use symm.DeskRow.Stop.{abs_number, max_number}
use symm.Longtail.{
  Trend, up, down, flat, Tone, good, warn, bad, info, neutral, BookDeskStats, PathBookSnapshot,
  LongtailSample, Verdict, tier_of, win_rate_tone, return_tone, hundredth, three_twentieths, fifth,
}

-- What `tierStats` returns.
pub record Tier : Type 0 where
  pub stats : BookDeskStats
  pub win_rate : Option Number
  pub edge : Option Number
  pub armed : Option Number

-- `tierStats`
unfoldable pub tier_stats : LongtailSample → Book → Tier
tier_stats sample book =
    let stats = tier_of sample.books book in
    let win_rate : Option Number = elim book [
      | paper ↦ or_else sample.paper_win stats.win_rate
      | real ↦ or_else sample.real_win stats.win_rate
      | virtual ↦ stats.win_rate
    ] in
    let edge : Option Number = elim book [
      | paper ↦ or_else sample.paper_edge stats.mean_return
      | real ↦ or_else sample.real_edge stats.mean_return
      | virtual ↦ stats.mean_return
    ] in
    let armed : Option Number = elim book [ real ↦ sample.real_armed | _ ↦ none ] in
    record { stats = stats; win_rate = win_rate; edge = edge; armed = armed }

-- `Math.sign`
abbrev pub sign_of : Number → Number
sign_of nan = nan
sign_of n =
    if number_lt (of_ℕ 0) n
    then of_ℕ 1
    else if number_lt n (of_ℕ 0)
    then finite (negsuc (2 ^ 1074 - 1))
    else of_ℕ 0

abbrev pub is_warm : Tone → Bool
is_warm good = true
is_warm _ = false

abbrev pub is_bad : Tone → Bool
is_bad bad = true
is_bad _ = false

abbrev pub is_up : Trend → Bool
is_up up = true
is_up _ = false

abbrev pub is_flat : Trend → Bool
is_flat flat = true
is_flat _ = false

abbrev pub said : String → Tone → Verdict
said label tone = record { label = label; tone = tone }

-- The branches of `verdict` once the edge or the win rate is known; `flips` is whether there were
-- three sign flips, and `churn` whether the path book churned.
unfoldable pub judge : Tone → Tone → Trend → Bool → Bool → Verdict
judge edge win trend flips churn =
    let losing = is_bad edge || is_bad win in
    let winning = is_warm edge && not (is_bad win) in
    if flips && not (winning && is_up trend)
    then said "Thrashing" bad
    else if churn && (is_flat trend && not (is_warm edge))
    then said "Thrashing" warn
    else if losing
    then elim trend [
      | down ↦ said "Degrading" bad
      | up ↦ said "Recovering" warn
      | flat ↦ said "Stuck" bad
    ]
    else if winning
    then elim trend [
      | down ↦ said "Slipping" warn
      | up ↦ said "Improving" good
      | flat ↦ said "Stable" info
    ]
    else said "Mixed" warn

abbrev pub first_or : LongtailSample → List LongtailSample → LongtailSample
first_or sample [] = sample
first_or sample (first ∷ samples) = first

abbrev pub latest_or : LongtailSample → List LongtailSample → LongtailSample
latest_or sample [] = sample
latest_or sample (next ∷ samples) = latest_or next samples

abbrev pub or_zero : Option Number → Number
or_zero n = or_value n (of_ℕ 0)

module _ (host : Host) where
  -- `trendOf`
  unfoldable pub trend_of : Option Number → Option Number → Trend
  trend_of (some current) (some prior) =
      if not (is_finite current) || not (is_finite prior)
      then flat
      else if number_lt (abs_number (host.sub current prior)) hundredth
      then flat
      else if number_lt prior current
      then up
      else down
  trend_of _ _ = flat

  -- `signFlips`, from a prior edge on
  unfoldable pub sign_flips : Option Number → List LongtailSample → Book → ℕ
  sign_flips prior [] book = 0
  sign_flips prior (sample ∷ samples) book = elim (tier_stats sample book).edge [
    | none ↦ sign_flips prior samples book
    | some edge ↦
        let rest = sign_flips (some edge) samples book in
        if is_flip prior edge then ℕ.suc rest else rest
  ]
    where
      is_flip : Option Number → Number → Bool
      is_flip none edge = false
      is_flip (some before) edge =
          not (number_eq (sign_of before) (of_ℕ 0))
          && (not (number_eq (sign_of edge) (of_ℕ 0))
              && not (number_eq (sign_of before) (sign_of edge)))

  abbrev pub churn_of : PathBookSnapshot → Number
  churn_of paths = host.add (or_zero paths.added) (or_zero paths.removed)

  -- The verdict where neither the edge nor the win rate is known.
  unfoldable pub unsettled_verdict : LongtailSample → LongtailSample → Verdict
  unsettled_verdict latest prior = elim latest.paths.developed [
    | none ↦ said "Warming up" neutral
    | some developed ↦
        if number_lt (max_number (of_ℕ 2) (host.mul developed three_twentieths))
            (churn_of latest.paths)
          && number_eq (or_zero latest.paths.promoted) (or_zero prior.paths.promoted)
        then said "Thrashing paths" warn
        else said "Path book live" info
  ]

  -- The verdict on a latest sample, the one it is compared with and the recent ones.
  unfoldable pub settled_verdict :
      LongtailSample → LongtailSample → List LongtailSample → Book → Verdict
  settled_verdict latest prior recent book =
      let now = tier_stats latest book in
      if not (is_some now.edge) && not (is_some now.win_rate)
      then unsettled_verdict latest prior
      else judge (return_tone now.edge) (win_rate_tone now.win_rate)
          (trend_of now.edge (tier_stats prior book).edge) (leb 3 (sign_flips none recent book))
          (number_le (max_number (of_ℕ 3) (host.mul (or_zero latest.paths.developed) fifth))
            (churn_of latest.paths))

  -- `verdict`
  unfoldable pub verdict : List LongtailSample → Book → Verdict
  verdict (first ∷ second ∷ samples) book =
      let all = first ∷ second ∷ samples in
      settled_verdict (latest_or first all) (first_or first (take_last 16 all)) (take_last 24 all)
        book
  verdict _ book = said "Warming up" neutral
