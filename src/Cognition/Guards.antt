-- ===== src/Cognition/Guards.antt =====
-- The type guards of cognition.ts, with the value that a guard lets through. Fields that a guard does
-- not test are taken as they are declared: missing where they are of another type.
pub mod Schema
use symm.Base.{String, Bool, Option, none, some, List, [], ◌∷◌, ◌==◌, if◌then◌else◌, ◌>>=◌}
use symm.Base.Number.{Number}
use symm.Base.Json.{Json, undefined, null, bool, num, str, arr, obj, Fields, get, items}
use symm.Cognition.{Branch, Gate, Level, error, warning, Problem, TreeFrame, Match}

abbrev pub as_text : Json → Option String
as_text (str s) = some s
as_text _ = none

abbrev pub as_number : Json → Option Number
as_number (num n) = some n
as_number _ = none

abbrev pub as_flag : Json → Option Bool
as_flag (bool b) = some b
as_flag _ = none

abbrev pub as_items : Json → Option (List Json)
as_items (arr vs) = some (items vs)
as_items _ = none

-- A property of a value: none but `null` and `undefined` throw, and the guards skip those.
abbrev pub as_fields : Json → Option Fields
as_fields (obj fields) = some fields
as_fields _ = none

-- `a ?? null`
abbrev pub or_null : Json → Json
or_null undefined = null
or_null v = v

abbrev pub as_named : Json → Option String
as_named v = do s ← as_text v; if s == "" then none else some s

-- `isBranch`
unfoldable pub branch_of : Json → Option Branch
branch_of v = do
  b ← as_fields v
  hash ← as_text (get "hash" b)
  depth ← as_number (get "depth" b)
  visits ← as_number (get "visits" b)
  mean_edge ← as_number (get "meanEdge" b)
  confidence ← as_number (get "confidence" b)
  policy ← as_text (get "policy" b)
  some (record {
    hash = hash;
    depth = depth;
    visits = visits;
    mean_edge = mean_edge;
    confidence = confidence;
    policy = policy;
    observed = as_flag (get "observed" b);
  })

-- `isGate`: null is one.
unfoldable pub gate_of : Json → Option (Option Gate)
gate_of null = some none
gate_of v = do
  g ← as_fields v
  tick_epoch ← as_text (get "tickEpoch" g)
  enabled ← as_flag (get "enabled" g)
  surprise_z ← as_number (get "surpriseZ" g)
  warmup ← as_text (get "warmup" g)
  learning_rate ← as_number (get "learningRate" g)
  some (
      some (record {
        tick_epoch = tick_epoch;
        enabled = enabled;
        surprise_z = surprise_z;
        warmup = warmup;
        learning_rate = learning_rate;
      }))

abbrev pub level_of : Json → Option Level
level_of (str s) =
    if s == "error" then some error else if s == "warning" then some warning else none
level_of _ = none

-- `isProblem`: null is one.
unfoldable pub problem_of : Json → Option (Option Problem)
problem_of null = some none
problem_of v = do
  p ← as_fields v
  level ← level_of (get "level" p)
  reason ← as_named (get "reason" p)
  fix ← as_named (get "fix" p)
  some (some (record { level = level; reason = reason; fix = fix }))

-- `list.every(guard)`, with the values
abbrev pub every {ℓ} : {A : Type ℓ} → (Json → Option A) → List Json → Option (List A)
every guard [] = some []
every guard (v ∷ vs) = do a ← guard v; as' ← every guard vs; some (a ∷ as')

-- `isTree`
unfoldable pub tree_of : Json → Option TreeFrame
unfolding branch_of gate_of problem_of
tree_of v = do
  t ← as_fields v
  epoch ← as_text (get "epoch" t)
  paths ← as_number (get "paths" t)
  trading ← as_flag (get "trading" t)
  gate ← gate_of (or_null (get "gate" t))
  key_list ← as_items (get "keys" t)
  keys ← every as_text key_list
  branch_list ← as_items (get "branches" t)
  branches ← every branch_of branch_list
  problem ← problem_of (or_null (get "problem" t))
  some (record {
    epoch = epoch;
    paths = paths;
    trading = trading;
    gate = gate;
    keys = keys;
    branches = branches;
    problem = problem;
  })

abbrev pub texts_field : Json → Option (List String)
texts_field v = do list ← as_items v; every as_text list

-- `isMatch`
unfoldable pub match_of : Json → Option Match
match_of v = do
  m ← as_fields v
  symbol ← as_named (get "symbol" m)
  tick ← as_number (get "tick" m)
  token_list ← as_items (get "tokens" m)
  tokens ← every as_text token_list
  stored ← as_flag (get "stored" m)
  match_text ← as_text (get "match" m)
  depth ← as_number (get "depth" m)
  action ← as_text (get "action" m)
  some (record {
    symbol = symbol;
    tick = tick;
    tokens = tokens;
    stored = stored;
    match_text = match_text;
    depth = depth;
    action = action;
    live_path = as_text (get "livePath" m);
    trigger_path = as_text (get "triggerPath" m);
    policy_path = as_text (get "policyPath" m);
    similarity = as_number (get "similarity" m);
    exact_match = as_flag (get "exactMatch" m);
    blocked_reason = as_text (get "blockedReason" m);
    rejected = texts_field (get "rejected" m);
  })
