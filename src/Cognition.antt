-- ===== src/Cognition.antt =====
-- frontend/src/collections/cognition.ts: what the learner's frames leave in the page. This file has
-- the state; the modules below have the frames that change it.
--
-- `matches` and the other tables are objects; their keys are symbols and object keys with a slash,
-- which no name of `Object.prototype` has.
pub mod Symbols
pub mod Regions
pub mod Policy
pub mod Guards
pub mod Frames
mod Tests
use symm.Base.{String, Bool, Option, none, some, List, [], Dict}
use symm.Base.Number.{Number}

-- `CognitionBranch`
pub record Branch : Type 0 where
  pub hash : String
  pub depth : Number
  pub visits : Number
  pub mean_edge : Number
  pub confidence : Number
  pub policy : String
  pub observed : Option Bool

-- `CognitionGate`
pub record Gate : Type 0 where
  pub tick_epoch : String
  pub enabled : Bool
  pub surprise_z : Number
  pub warmup : String
  pub learning_rate : Number

pub data Level : Type 0 where
  error warning : Level

-- `CognitionProblem`
pub record Problem : Type 0 where
  pub level : Level
  pub reason : String
  pub fix : String

-- `CognitionTreeFrame`
pub record TreeFrame : Type 0 where
  pub epoch : String
  pub paths : Number
  pub trading : Bool
  pub gate : Option Gate
  pub keys : List String
  pub branches : List Branch
  pub problem : Option Problem

-- `CognitionMatch`
pub record Match : Type 0 where
  pub symbol : String
  pub tick : Number
  pub tokens : List String
  pub stored : Bool
  pub match_text : String
  pub depth : Number
  pub action : String
  pub live_path : Option String
  pub trigger_path : Option String
  pub policy_path : Option String
  pub similarity : Option Number
  pub exact_match : Option Bool
  pub blocked_reason : Option String
  pub rejected : Option (List String)

-- `CognitionState`
pub record Cognition : Type 0 where
  pub epoch : String
  pub policy_keys : List String
  pub thresholds : Dict Number
  pub matches : Dict Match
  pub problem : Option Problem
  pub tree : Option TreeFrame

abbrev pub initial_state : Cognition
initial_state = record {
  epoch = "0";
  policy_keys = [];
  thresholds = [];
  matches = [];
  problem = none;
  tree = none;
}
