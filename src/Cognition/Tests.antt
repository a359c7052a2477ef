-- ===== src/Cognition/Tests.antt =====
-- Layers and frames of the learner at fixed inputs, and the witnesses of its theorems.
use symm.Base.{String, ◌≡◌, refl, true, none, some, List, [], ◌∷◌, lookup, inl, inr, arith, insert}
use symm.Base.Number.{Number, nan, of_ℕ}
use symm.Base.Json.{Json, str, num, arr, obj, null, nil, cons, field, end}
use symm.Cognition.{Cognition, Match, initial_state}
use symm.Cognition.Symbols.{split_symbol, initial_symbols}
use symm.Cognition.Symbols.Longest.{IsResult, split_symbol_longest}
use symm.Cognition.Regions.{parse_train_regions_index, Learner, is_region}
use symm.Cognition.Regions.Rings.{Arrival, ingest_layers, ingest_layers-AreSized, AreSized}
use symm.Cognition.Regions.Indexes.{parse_train_regions_index-join_slash}
use symm.Cognition.Frames.{
  ingest_path_walks, ingest_cognition_frame, walks_of, walk_matches, walk_match, walk_of,
  walk_action, ingest_keys,
}
use symm.Cognition.Policy.{ingest_policy_keys, trie_keys}
use symm.Explore.{
  filter_explore_keys, explore_path_kept, is_path_book_key, explore_threshold_for_key,
}
use symm.Cognition.Frames.Errors.{ingest_cognition_frame-malformed, IsAnswer}
use symm.Cognition.Frames.Walks.{ingest_path_walks-follows, IsFollowing}

split_symbol_longest_example :
    IsResult initial_symbols "BTC/USD/R01/R02" (split_symbol initial_symbols "BTC/USD/R01/R02")
split_symbol_longest_example = split_symbol_longest initial_symbols "BTC/USD/R01/R02"

split_test :
    split_symbol ("BTC" ∷ "BTC/USD" ∷ []) "BTC/USD/R01"
    ≡ some (record { symbol = "BTC/USD"; rest = "R01" })
unfolding split_symbol
split_test = refl

abbrev region_index : String
region_index = "workspace/train/regions/BTC/USD/R01/R02"

abbrev two_symbols : List String
two_symbols = "BTC" ∷ "BTC/USD" ∷ []

parse_train_regions_index-join_slash_example :
    parse_train_regions_index two_symbols region_index
    ≡ (some (record { symbol = "BTC/USD"; tokens = "R01" ∷ "R02" ∷ [] }), two_symbols)
unfolding is_region
parse_train_regions_index-join_slash_example =
    parse_train_regions_index-join_slash two_symbols region_index "BTC/USD" ("R01" ∷ []) "R02" refl
      ((λ _. inr (omega arith)), ((λ _. inl refl), tt)) refl ((refl, refl), ((refl, refl), tt)) refl

abbrev zero_number : Json → Number
zero_number (num n) = n
zero_number _ = nan

abbrev learner : Learner
learner = record { symbols = initial_symbols; rings = []; cognition = initial_state }

abbrev arrivals : List Arrival
arrivals =
    record {
      tick = of_ℕ 7;
      index = region_index;
      payload = arr (cons (num (of_ℕ 1)) (cons (num (of_ℕ 2)) nil));
    }
    ∷ record { tick = of_ℕ 8; index = "elsewhere"; payload = null }
    ∷ []

ingest_layers-AreSized_example : AreSized (ingest_layers zero_number arrivals learner).rings
ingest_layers-AreSized_example = ingest_layers-AreSized zero_number arrivals learner tt

abbrev walks : Json
walks = arr (
    cons
      (obj (
        field "symbol" (str "BTC/USD")
          (field "live" (str "R01/R02") (field "enter" (num (of_ℕ 1)) end))))
      nil)

abbrev old_match : Match
old_match = record {
  symbol = "BTC/USD";
  tick = of_ℕ 6;
  tokens = [];
  stored = true;
  match_text = "R01";
  depth = of_ℕ 0;
  action = "";
  live_path = none;
  trigger_path = none;
  policy_path = none;
  similarity = none;
  exact_match = none;
  blocked_reason = none;
  rejected = none;
}

abbrev matched : Cognition
matched = record initial_state { matches = ("BTC/USD", old_match) ∷ [] }

ingest_path_walks-follows_example :
    (found : Match) × (lookup "BTC/USD"
        (ingest_path_walks (λ s. s) (of_ℕ 7) walks matched).cognition.matches
      ≡ some found)
    × IsFollowing (of_ℕ 7) old_match found
unfolding lookup
ingest_path_walks-follows_example =
    ingest_path_walks-follows (λ s. s) (of_ℕ 7) walks matched "BTC/USD" old_match refl

ingest_cognition_frame-malformed_example :
    IsAnswer "match" walks matched (ingest_cognition_frame "match" walks matched)
ingest_cognition_frame-malformed_example = ingest_cognition_frame-malformed "match" walks matched

-- A walk keeps what is stored, and a tree's frame lists the trie again.
walked :
    lookup "BTC/USD" (ingest_path_walks (λ s. s) (of_ℕ 7) walks matched).cognition.matches
    ≡ some (record old_match {
      tick = of_ℕ 7;
      tokens = "R01" ∷ "R02" ∷ [];
      depth = of_ℕ 2;
      action = "enter";
      live_path = some "R01/R02";
      policy_path = some "R01/R02";
      rejected = some [];
    })
unfolding ingest_path_walks walks_of walk_of walk_matches walk_match walk_action lookup insert
walked = refl

abbrev keys_payload : Json
keys_payload = obj (
    field "keys" (arr (cons (str "model/paths/BTC/USD/R01/enter.bin") (cons (str "other") nil)))
      (field "epoch" (str "9") end))

keyed :
    (ingest_cognition_frame "keys" keys_payload initial_state).cognition
    ≡ record initial_state { epoch = "9"; policy_keys = "model/paths/BTC/USD/R01/enter.bin" ∷ [] }
unfolding ingest_cognition_frame ingest_keys ingest_policy_keys trie_keys filter_explore_keys
    explore_path_kept is_path_book_key explore_threshold_for_key lookup
keyed = refl
