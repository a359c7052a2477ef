-- ===== src/Lifecycle.antt =====
-- frontend/src/lib/lifecycle.ts: the round trips of the desk. This file has the data; the modules
-- below have the store, the frames that feed it and the rows that are read for statistics.
--
-- `null` and `undefined` differ under `!==`, so a field that can be either is a `Slot`.
pub mod Capped
pub mod Reader
pub mod History
pub mod Positions
pub mod Desk
pub mod Stats
mod Tests
use symm.Base.{ℕ, String, Bool, true, false, Option, none, some, List, [], ◌∷◌}
use symm.Base.Number.{Number}
use symm.Base.Json.{Json}
use symm.Listing.{Stamp}

pub data Slot {ℓ} (A : Type ℓ) : Type ℓ where
  absent null : Slot A
  value : A → Slot A

module _ {ℓ} {A : Type ℓ} where
  -- `a ?? b`
  abbrev pub or_slot : Slot A → Slot A → Slot A
  or_slot (value a) b = value a
  or_slot _ b = b

  -- A field of an object that may be missing, `o?.x`.
  abbrev pub slot_of {κ} : {B : Type κ} → Option B → (B → Slot A) → Slot A
  slot_of none read = absent
  slot_of (some b) read = read b

pub record LifeEvent : Type 0 where
  pub at : String
  pub kind : String
  pub detail : String
  pub fields : Option Json

pub record LifeMark : Type 0 where
  pub at : String
  pub bid : Number
  pub quantity : Number
  pub entry_price : Number
  pub unrealized : Number
  pub unrealized_return : Number

pub record LifeOutcome : Type 0 where
  pub pnl : Number
  pub pnl_pct : Number
  pub money : Slot Number
  pub hold_ns : Number
  pub expected_hold_ns : Option Number
  pub triggers : Option (List String)
  pub realized : Slot Number
  pub mark : Slot Number
  pub bars_held : Slot Number
  pub max_lifetime_bars : Slot Number

pub record LearnedExitPolicy : Type 0 where
  pub trailing : Slot Number
  pub cut : Slot Number
  pub max_bars : Slot Number
  pub worst : Slot Number

-- frontend/src/collections/types.ts, `DynamicStoploss`
pub data StoplossState : Type 0 where
  healthy protected critical dangerous triggered : StoplossState

pub record DynamicStoploss : Type 0 where
  pub state : StoplossState
  pub friction : Number
  pub current_pnl : Number
  pub peak_pnl : Number
  pub floor_pnl : Number
  pub has_floor : Bool
  pub room_pct : Number
  pub proximity : Number
  pub downside_pressure : Number
  pub downside_magnitude_ratio : Number
  pub consecutive_down : Number
  pub exit_reason : Option String
  pub opened_at : Option String
  pub last_peak_time : Option String

pub record Lifecycle : Type 0 where
  pub id : String
  pub symbol : String
  pub status : String
  pub policy_epoch : Option String
  pub path : Option String
  pub opened_at : String
  pub closed_at : Slot String
  pub events : Option (List LifeEvent)
  pub mark : Slot LifeMark
  pub stop_state : Slot DynamicStoploss
  pub policy : Slot LearnedExitPolicy
  pub peak_pct : Slot Number
  pub realized_pct : Slot Number
  pub pnl_trace : Slot (List Number)
  pub bars_held : Slot Number
  pub exit_trigger : Slot String
  pub official_exit_pct : Slot Number
  pub marks : Option (List LifeMark)
  pub outcome : Slot LifeOutcome
  pub book : Option String
  pub path_found : Option Bool
  pub desk : Option Bool
  pub history : Option Bool
  pub marks_a : Slot Number
  pub marks_b : Slot Number
  pub marks_c : Slot Number
