-- ===== src/Longtail/Judge/Green.antt =====
-- When the verdict is green.
use symm.Base.{◌≡◌, false, List, ◌∷◌, take_last}
use symm.Book.{Book}
use symm.DeskRow.{Host}
use symm.Longtail.{good, up, LongtailSample, return_tone, win_rate_tone}
use symm.Longtail.Judge.{tier_stats, trend_of, first_or, latest_or, is_bad}

-- The sample that a verdict is on, and the one that it is compared with.
abbrev pub latest_of : LongtailSample → List LongtailSample → LongtailSample
latest_of first rest = latest_or first (first ∷ rest)

abbrev pub prior_of : LongtailSample → List LongtailSample → LongtailSample
prior_of first rest = first_or first (take_last 16 (first ∷ rest))

-- The selected ledger's edge is good and rises, and its win rate is not bad.
pub record IsImproving (host : Host) (book : Book) (latest prior : LongtailSample) : Type 0 where
  pub edge : return_tone (tier_stats latest book).edge ≡ good
  pub win_rate : is_bad (win_rate_tone (tier_stats latest book).win_rate) ≡ false
  pub rises : trend_of host (tier_stats latest book).edge (tier_stats prior book).edge ≡ up
