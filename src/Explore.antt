-- ===== src/Explore.antt =====
-- frontend/src/components/learning/explore-path.ts: which keys of the path book are shown, by the
-- resistance that is stored for each.
pub mod Kept
mod Tests
use symm.Base.{
  ℕ, ◌*◌, ◌^◌, String, Bool, true, false, not, Option, none, some, List, [], ◌∷◌, ◌==◌,
  if◌then◌else◌, any, keep, Dict, lookup,
}
use Prim.Native.String
use symm.Base.Number.{Number, finite, pos, is_finite, number_le}
use symm.Base.Text.{starts_with, ends_with, split_slash}

-- 0.5 and 0.8, in units of 2 ^ -1074
abbrev pub explore_base_threshold : Number
explore_base_threshold = finite (pos (2 ^ 1073))

abbrev pub explore_prune_threshold : Number
explore_prune_threshold = finite (pos (3602879701896397 * 2 ^ 1022))

abbrev pub path_actions : List String
path_actions = "enter" ∷ "hold" ∷ "exit" ∷ []

abbrev pub last_or : String → List String → String
last_or d [] = d
last_or d (s ∷ ss) = last_or s ss

-- `pathBookPolicyKey(storageKey, action?)`
unfoldable pub path_book_policy_key : String → Option String → String
path_book_policy_key storage_key action =
    if ends_with (last_or "" (split_slash storage_key)) ".bin" then storage_key else elim action [
      | none ↦ storage_key
      | some act ↦
          if any (λ a. a == act) path_actions
          then String.◌++◌ storage_key (String.◌++◌ "/" (String.◌++◌ act ".bin"))
          else storage_key
    ]

abbrev pub path_books : List String
path_books = "model/paths" ∷ []

-- `isPathBookKey`
unfoldable pub is_path_book_key : String → Bool
is_path_book_key key = any (starts_with key) path_books

-- `exploreThresholdForKey`: the stored book if it is a finite number.
unfoldable pub explore_threshold_for_key : String → Option (Dict Number) → Option Number
explore_threshold_for_key key none = none
explore_threshold_for_key key (some thresholds) =
    if is_path_book_key key
    then elim (lookup key thresholds) [
      | none ↦ none
      | some raw ↦ if is_finite raw then some raw else none
    ]
    else none

-- `explorePathKept`
unfoldable pub explore_path_kept : String → Option (Dict Number) → Bool
unfolding explore_threshold_for_key
explore_path_kept key thresholds =
    if is_path_book_key key
    then elim (explore_threshold_for_key key thresholds) [
      | none ↦ true
      | some threshold ↦ number_le threshold explore_prune_threshold
    ]
    else true

-- `filterExploreKeys`
unfoldable pub filter_explore_keys : List String → Option (Dict Number) → List String
filter_explore_keys keys thresholds = keep (λ key. explore_path_kept key thresholds) keys
