-- ===== src/Explore/Kept.antt =====
-- Which keys the filter drops.
use symm.Base.{
  ◌≡◌, ◌↔◌, ◌≢◌, String, true, false, Option, none, some, List, arith, Dict, lookup, All,
  Option-cases, inl, inr, keep-All, keep_idem,
}
use symm.Base.Number.{Number, is_finite, number_le}
use symm.Explore.{explore_prune_threshold, is_path_book_key, explore_path_kept, filter_explore_keys}

-- A stored resistance above the prune threshold.
pub record IsPruned (key : String) (thresholds : Dict Number) : Type 0 where
  pub in_book : is_path_book_key key ≡ true
  pub stored : Number
  pub found : lookup key thresholds ≡ some stored
  pub is_number : is_finite stored ≡ true
  pub above : number_le stored explore_prune_threshold ≡ false

kept_of_missing :
    (key : String) (thresholds : Dict Number)
    → lookup key thresholds ≡ none
    → explore_path_kept key (some thresholds) ≢ false
unfolding explore_path_kept
kept_of_missing key thresholds missing = ground arith

-- A key is dropped exactly when it is a path book key with a finite resistance stored above 0.8: a
-- key of another book, and one with no resistance or none that is finite, stays.
pub dropped_iff :
    (key : String) (thresholds : Dict Number)
    → (explore_path_kept key (some thresholds) ≡ false) ↔ IsPruned key thresholds
unfolding explore_path_kept
dropped_iff key thresholds = (
  λ h. elim (Option-cases (lookup key thresholds)) [
    | inl missing ↦ absurd (kept_of_missing key thresholds missing h)
    | inr (raw, found) ↦ record {
      in_book = ground arith;
      stored = raw;
      found = found;
      is_number = ground (arith, found);
      above = ground (arith, found);
    }
  ],
  λ p. ground (arith, p.in_book, p.found, p.is_number, p.above),
)

-- Filtering twice drops no more than filtering once.
pub filter_explore_keys_idem :
    (keys : List String) (thresholds : Option (Dict Number))
    → filter_explore_keys (filter_explore_keys keys thresholds) thresholds
      ≡ filter_explore_keys keys thresholds
unfolding filter_explore_keys
filter_explore_keys_idem keys thresholds = keep_idem (λ key. explore_path_kept key thresholds) keys

pub filter_explore_keys-All :
    (keys : List String) (thresholds : Option (Dict Number))
    → All (λ key. explore_path_kept key thresholds ≡ true) (filter_explore_keys keys thresholds)
unfolding filter_explore_keys
filter_explore_keys-All keys thresholds = keep-All (λ key. explore_path_kept key thresholds) keys
