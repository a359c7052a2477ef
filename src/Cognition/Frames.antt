-- ===== src/Cognition/Frames.antt =====
-- The frames of cognition.ts that change the store, and the hub commands that they send.
-- `to_lower` is `toLowerCase`.
pub mod Errors
pub mod Walks
use symm.Base.{
  String, Bool, true, false, not, ◌&&◌, ◌||◌, Option, none, some, List, [], ◌∷◌, ◌++◌, ◌==◌,
  if◌then◌else◌, or_value, or_else, Dict, lookup, insert, any, keep, length, map,
}
use symm.Base.Number.{Number, of_ℕ, number_eq}
use symm.Base.Json.{
  is_truthy, Json, str, bool, num, arr, obj, undefined, null, Fields, end, get, items,
  string_or_empty,
}
use symm.Base.Text.{starts_with, split_slash, non_empty}
use symm.Explore.{filter_explore_keys}
use symm.Book.{trie_prefix}
use symm.Cognition.{Cognition, TreeFrame, Match}
use symm.Cognition.Guards.{as_text, tree_of, match_of}
use symm.Cognition.Policy.{same_string_list, ingest_policy_keys}

-- `PathWalk`
pub record PathWalk : Type 0 where
  pub symbol : String
  pub phase : Option String
  pub live : Option String
  pub trigger : Option String
  pub policy : Option String
  pub enter : Bool
  pub story_phase : Option String
  pub outcome : Option String

-- A `type: "s3"` command with the prefix to list.
pub data HubCommand : Type 0 where
  list_prefix : String → HubCommand

-- What a frame leaves: the store, the commands sent, and whether the frame was taken.
pub record Handled : Type 0 where
  pub cognition : Cognition
  pub commands : List HubCommand
  pub ok : Bool

abbrev pub ignored : Cognition → Handled
ignored c = record { cognition = c; commands = []; ok = false }

abbrev pub without_trie : Cognition → Cognition
without_trie c = record c {
  policy_keys = keep (λ key. not (starts_with key trie_prefix)) c.policy_keys;
}

-- The rows that the filter of `ingestPathWalks` lets through; the other fields are of their types.
unfoldable pub walk_of : Json → Option PathWalk
walk_of (obj row) =
    let symbol = string_or_empty (get "symbol" row) in
    if symbol == ""
    then none
    else some (record {
      symbol = symbol;
      phase = as_text (get "phase" row);
      live = as_text (get "live" row);
      trigger = as_text (get "trigger" row);
      policy = as_text (get "policy" row);
      enter = is_truthy (get "enter" row);
      story_phase = as_text (get "storyPhase" row);
      outcome = as_text (get "outcome" row);
    })
walk_of _ = none

unfoldable pub walks_of : List Json → List PathWalk
unfolding walk_of
walks_of [] = []
walks_of (v ∷ vs) = elim (walk_of v) [ none ↦ walks_of vs | some row ↦ row ∷ walks_of vs ]

-- `a || b` of texts that may be missing
abbrev pub or_text : Option String → String → String
or_text none b = b
or_text (some a) b = if a == "" then b else a

abbrev pub phase_of : PathWalk → String
phase_of row = or_text row.phase (or_text row.policy (or_text row.trigger (or_text row.live "")))

abbrev pub is_exit : PathWalk → Bool
is_exit row = elim row.outcome [ none ↦ false | some outcome ↦ outcome == "exit submitted" ]

module _ (to_lower : String → String) where
  -- `walkAction`
  unfoldable pub walk_action : PathWalk → String
  walk_action row =
      let story = to_lower (or_value row.story_phase "") in
      if any (λ s. s == story) ("enter" ∷ "hold" ∷ "exit" ∷ [])
      then story
      else if row.enter
      then "enter"
      else "exit"

  -- The match that a row makes. A match of the same tick keeps `rejected` as it is, another one
  -- keeps it or an empty list.
  unfoldable pub walk_match : Number → PathWalk → Option Match → Match
  unfolding walk_action
  walk_match tick row prior =
      let tokens = non_empty (split_slash (phase_of row)) in
      let rejected : Option (List String) = elim prior [
        | none ↦ some []
        | some p ↦ if number_eq p.tick tick then p.rejected else some (or_value p.rejected [])
      ] in
      let stored : Bool = elim prior [ none ↦ false | some p ↦ p.stored ] in
      let match_text : String = elim prior [ none ↦ "" | some p ↦ p.match_text ] in
      record {
        symbol = row.symbol;
        tick = tick;
        tokens = tokens;
        stored = stored;
        match_text = match_text;
        depth = of_ℕ (length tokens);
        action = walk_action row;
        live_path = row.live;
        trigger_path = row.trigger;
        policy_path = some (or_text row.policy (phase_of row));
        similarity = none;
        exact_match = none;
        blocked_reason = none;
        rejected = rejected;
      }

  -- The loop over the rows.
  unfoldable pub walk_matches : Number → List PathWalk → Dict Match → Dict Match
  unfolding walk_match
  walk_matches tick [] matches = matches
  walk_matches tick (row ∷ rows) matches =
      walk_matches tick rows
        (insert row.symbol (walk_match tick row (lookup row.symbol matches)) matches)

  -- `ingestPathWalks`
  unfoldable pub ingest_path_walks : Number → Json → Cognition → Handled
  ingest_path_walks tick (arr payload) c = elim (walks_of (items payload)) [
    | [] ↦ ignored c
    | row ∷ rows ↦
        let walked : Cognition = record c { matches = walk_matches tick (row ∷ rows) c.matches } in
        if any is_exit (row ∷ rows)
        then record {
          cognition = without_trie walked;
          commands = list_prefix trie_prefix ∷ [];
          ok = true;
        }
        else record { cognition = walked; commands = []; ok = true }
  ]
  ingest_path_walks tick payload c = ignored c

-- The tree's part of `ingestCognitionFrame`
unfoldable pub ingest_tree : TreeFrame → Cognition → Handled
unfolding filter_explore_keys same_string_list
ingest_tree tree c =
    let keys = filter_explore_keys tree.keys (some c.thresholds) in
    record {
      cognition = record {
        epoch = tree.epoch;
        policy_keys = keys;
        thresholds = c.thresholds;
        matches = [];
        problem = tree.problem;
        tree = some tree;
      };
      commands = if same_string_list c.policy_keys keys then [] else list_prefix trie_prefix ∷ [];
      ok = true;
    }

-- The keys' part of `ingestCognitionFrame`. An array is an object too, without `keys`.
unfoldable pub ingest_keys : Json → Cognition → Handled
ingest_keys (obj body) c =
    let next = ingest_policy_keys (get "keys" body) (as_text (get "epoch" body)) c in
    record { cognition = next.0; commands = []; ok = next.1 }
ingest_keys payload c = ignored c

-- `ingestCognitionFrame`
unfoldable pub ingest_cognition_frame : String → Json → Cognition → Handled
ingest_cognition_frame role payload c =
    if role == "keys"
    then ingest_keys payload c
    else if role == "tree"
    then elim (tree_of payload) [ none ↦ ignored c | some tree ↦ ingest_tree tree c ]
    else if role == "match"
    then elim (match_of payload) [
      | none ↦ ignored c
      | some found ↦ record {
        cognition = record c { matches = insert found.symbol found c.matches };
        commands = [];
        ok = true;
      }
    ]
    else ignored c
