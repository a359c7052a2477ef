-- ===== src/Explore/Tests.antt =====
-- Runs of explore-path.ts.
use symm.Base.{false, some, [], ◌∷◌, ◌≡◌, refl, Dict, lookup, ◌^◌, ◌*◌}
use mathlib.Core.Logic.{◌↔◌}
use symm.Base.Number.{Number, finite, pos, infinity}
use symm.Explore.{
  explore_path_kept, filter_explore_keys, path_book_policy_key, is_path_book_key,
  explore_threshold_for_key, explore_base_threshold,
}
use symm.Explore.Kept.{IsPruned, dropped_iff}

abbrev thresholds : Dict Number
thresholds =
    ("model/paths/high", finite (pos (9 * 2 ^ 1074)))
    ∷ ("model/paths/base", explore_base_threshold)
    ∷ ("model/paths/bad", infinity)
    ∷ ("other/high", finite (pos (9 * 2 ^ 1074)))
    ∷ []

filtered :
    filter_explore_keys
      ("model/paths/high" ∷ "model/paths/base" ∷ "model/paths/bad" ∷ "other/high" ∷ [])
      (some thresholds)
    ≡ "model/paths/base" ∷ "model/paths/bad" ∷ "other/high" ∷ []
unfolding filter_explore_keys explore_path_kept explore_threshold_for_key is_path_book_key lookup
filtered = refl

policy_keys :
    (path_book_policy_key "model/paths/BTC" (some "hold") ≡ "model/paths/BTC/hold.bin")
    × (path_book_policy_key "model/paths/BTC" (some "wait") ≡ "model/paths/BTC")
    × (path_book_policy_key "model/paths/BTC/exit.bin" (some "hold") ≡ "model/paths/BTC/exit.bin")
unfolding path_book_policy_key
policy_keys = (refl, refl, refl)

dropped_iff_example :
    (explore_path_kept "model/paths/high" (some thresholds) ≡ false)
    ↔ IsPruned "model/paths/high" thresholds
dropped_iff_example = dropped_iff "model/paths/high" thresholds
