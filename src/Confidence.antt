-- ===== src/Confidence.antt =====
-- frontend/src/collections/confidence.ts: the hub's confidence in each ledger.
pub mod Sound
mod Tests
use symm.Base.{Bool, true, false, ◌||◌, Option, none, some, ◌*◌, ◌^◌}
use symm.Base.Number.{Number, finite, pos, is_finite}
use symm.Base.Json.{Json, undefined, null, bool, num, obj, arr, Fields, end, get}
use symm.Book.{Book, virtual, real, paper}

pub record BookConfidence : Type 0 where
  pub active : Option Bool
  pub armed : Option Bool
  pub halted : Option Bool
  pub closed : Number
  pub wins : Number
  pub win_rate : Option Number
  pub edge : Option Number

pub record ConfidenceFrame : Type 0 where
  pub virtual_book : BookConfidence
  pub paper_book : BookConfidence
  pub real_book : BookConfidence
  pub eligible_resistance : Number
  pub real_ceiling : Bool

abbrev pub no_count : Number
no_count = finite (pos 0)

abbrev pub empty_book : BookConfidence
empty_book = record {
  active = some false;
  armed = some false;
  halted = some false;
  closed = no_count;
  wins = no_count;
  win_rate = none;
  edge = none;
}

-- 0.2, in units of 2 ^ -1074
abbrev pub default_resistance : Number
default_resistance = finite (pos (3602879701896397 * 2 ^ 1020))

-- What `confidenceAtom` starts with.
abbrev pub initial_frame : ConfidenceFrame
initial_frame = record {
  virtual_book = record empty_book { active = some true };
  paper_book = record empty_book { active = some true };
  real_book = empty_book;
  eligible_resistance = default_resistance;
  real_ceiling = false;
}

-- `confidenceFor`
unfoldable pub confidence_for : ConfidenceFrame → Book → BookConfidence
confidence_for frame virtual = frame.virtual_book
confidence_for frame real = frame.real_book
confidence_for frame paper = frame.paper_book

-- `asRate`, where null is none
unfoldable pub as_rate : Json → Option Number
as_rate (num (finite n)) = some (finite n)
as_rate _ = none

-- `asCount`
unfoldable pub as_count : Json → Number
as_count (num (finite n)) = finite n
as_count _ = no_count

-- `value === true`
abbrev pub is_true : Json → Bool
is_true (bool true) = true
is_true _ = false

-- The fields of a value of type object that is not null; an array has none of the names read here.
abbrev pub fields_of : Json → Option Fields
fields_of (obj fields) = some fields
fields_of (arr values) = some end
fields_of _ = none

-- `asBook`
unfoldable pub as_book : Json → Bool → BookConfidence
unfolding as_rate as_count
as_book value fallback_active = elim (fields_of value) [
  | none ↦ record empty_book { active = some fallback_active }
  | some row ↦ record {
    active = some (is_true (get "active" row) || fallback_active);
    armed = some (is_true (get "armed" row));
    halted = some (is_true (get "halted" row));
    closed = as_count (get "closed" row);
    wins = as_count (get "wins" row);
    win_rate = as_rate (get "win_rate" row);
    edge = as_rate (get "edge" row);
  }
]

-- `typeof value === "number" ? value : 0.2`
abbrev pub resistance_of : Json → Number
resistance_of (num n) = n
resistance_of _ = default_resistance

-- The frame that an object holds.
unfoldable pub frame_of : Fields → ConfidenceFrame
unfolding as_book
frame_of row = record {
  virtual_book = as_book (get "virtual" row) true;
  paper_book = as_book (get "paper" row) true;
  real_book = as_book (get "real" row) false;
  eligible_resistance = resistance_of (get "eligible_resistance" row);
  real_ceiling = is_true (get "real_ceiling" row);
}

-- `ingestConfidence`, on what the atom holds
unfoldable pub ingest_confidence : Json → ConfidenceFrame → ConfidenceFrame
unfolding frame_of
ingest_confidence raw frame = elim (fields_of raw) [ none ↦ frame | some row ↦ frame_of row ]
