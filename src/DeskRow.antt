-- ===== src/DeskRow.antt =====
-- frontend/src/components/book-readout.ts: the values of a desk row. The files below have the totals
-- of the fills, the readout, the stop (frontend/src/lib/stoploss.ts) and the round trips that are
-- made of a row (frontend/src/lib/desk-closed-lifecycle.ts).
--
-- `Host` has what the code asks of JavaScript and is not exact here: sums, products and quotients of
-- numbers, dates, and texts of values.
pub mod Totals
pub mod Readout
pub mod Stop
pub mod Life
mod Tests
use Prim.Native.Char.{Char, code}
use Prim.Native.String
use symm.Base.{
  ℕ, String, Bool, true, false, Option, none, some, List, [], ◌∷◌, ◌==◌, if◌then◌else◌, ◌>>=◌,
  or_else, eqb, ◌||◌,
}
use symm.Base.Number.{Number, of_ℕ}
use symm.Base.Json.{Json, undefined, null, num, str, arr, Fields, get, items}
use symm.Base.Text.{is_digit}

pub record Host : Type 0 where
  -- `trim()`, `toLowerCase()`, `Number(text)` and `String(value)`
  pub trim : String → String
  pub to_lower : String → String
  pub number_of : String → Number
  pub text_of : Json → String
  -- `n.toFixed(2)`, and a number in a template
  pub to_fixed : Number → String
  pub number_text : Number → String
  pub add : Number → Number → Number
  pub sub : Number → Number → Number
  pub mul : Number → Number → Number
  pub div : Number → Number → Number
  -- `new Date(text).toISOString()`, none where it throws, and `Date.parse(text)`
  pub to_iso : String → Option String
  pub parse_date : String → Number
  -- `new Date().toISOString()`
  pub now : String

-- The digits that a text starts with are dropped; is there one?
abbrev pub skip_digits : String → Bool × String
skip_digits String.[] = (false, "")
skip_digits (String.◌∷◌ c s) =
    if is_digit c then (true, (skip_digits s).1) else (false, String.◌∷◌ c s)

abbrev pub is_char : Char → ℕ → Bool
is_char c n = eqb (code c) n

-- `[+-]?`
abbrev pub skip_sign : String → String
skip_sign String.[] = ""
skip_sign (String.◌∷◌ c s) = if is_char c b'+' || is_char c b'-' then s else String.◌∷◌ c s

-- `(?:[eE][+-]?\d+)?$`
abbrev pub is_exponent : String → Bool
is_exponent String.[] = true
is_exponent (String.◌∷◌ c s) =
    let (some_digit, rest) = skip_digits (skip_sign s) in
    if is_char c b'e' || is_char c b'E' then (if some_digit then rest == "" else false) else false

-- What follows the whole digits: `(?:\.\d*)?` and the exponent.
abbrev pub is_fraction : String → Bool
is_fraction String.[] = true
is_fraction (String.◌∷◌ c s) =
    if is_char c b'.' then is_exponent ((skip_digits s).1) else is_exponent (String.◌∷◌ c s)

-- `\.\d+` and the exponent
abbrev pub is_bare_fraction : String → Bool
is_bare_fraction String.[] = false
is_bare_fraction (String.◌∷◌ c s) =
    let (some_digit, rest) = skip_digits s in
    if is_char c b'.' then (if some_digit then is_exponent rest else false) else false

-- `decimalPattern`
unfoldable pub is_decimal : String → Bool
is_decimal text =
    let (some_digit, rest) = skip_digits (skip_sign text) in
    if some_digit then is_fraction rest else is_bare_fraction rest

-- `a ?? b` of values
abbrev pub or_json : Json → Json → Json
or_json undefined b = b
or_json null b = b
or_json a b = a

abbrev pub texts_in : List Json → List String
texts_in [] = []
texts_in (str s ∷ vs) = s ∷ texts_in vs
texts_in (_ ∷ vs) = texts_in vs

-- `outcomeTriggers`
unfoldable pub outcome_triggers : Json → Option (List String)
outcome_triggers (arr vs) = elim (texts_in (items vs)) [ [] ↦ none | s ∷ rest ↦ some (s ∷ rest) ]
outcome_triggers _ = none

-- `SettledOutcome`
pub record SettledOutcome : Type 0 where
  pub pnl : Option Number
  pub pnl_pct : Option Number
  pub hold_ns : Option Number
  pub triggers : Option (List String)

module _ (host : Host) where
  -- `decimal`
  unfoldable pub decimal : Json → Option Number
  unfolding is_decimal
  decimal (num n) = some n
  decimal (str s) = if is_decimal (host.trim s) then some (host.number_of (host.trim s)) else none
  decimal _ = none

  -- `dateText`
  unfoldable pub date_text : Json → Option String
  date_text (str s) = if s == "" then none else host.to_iso s
  date_text _ = none

  -- `returnFraction`
  unfoldable pub return_fraction : Fields → Option Number
  unfolding decimal
  return_fraction row = do pct ← decimal (get "pnl_pct" row); some (host.div pct (of_ℕ 100))

  -- `(Date.parse(closedAt) - Date.parse(openedAt)) * 1e6`, where both are there
  unfoldable pub hold_between : Option String → Option String → Option Number
  hold_between closed_at opened_at = do
    closed ← closed_at
    opened ← opened_at
    some (host.mul (host.sub (host.parse_date closed) (host.parse_date opened)) (of_ℕ 1000000))

  -- `settledOutcome`
  unfoldable pub settled_outcome : Fields → Option SettledOutcome
  unfolding decimal return_fraction date_text hold_between outcome_triggers
  settled_outcome row =
      let pct = decimal (get "pnl_pct" row) in
      let fraction = return_fraction row in
      let settled : SettledOutcome = record {
        pnl = fraction;
        pnl_pct = or_else pct (do f ← fraction; some (host.mul f (of_ℕ 100)));
        hold_ns = hold_between (date_text (get "closed_at" row)) (date_text (get "opened_at" row));
        triggers = outcome_triggers (get "outcome_triggers" row);
      } in
      elim fraction [
        | some f ↦ some settled
        | none ↦ elim pct [ none ↦ none | some p ↦ some settled ]
      ]
