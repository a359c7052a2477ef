-- ===== src/DeskRow/Totals.antt =====
-- `executionTotals` of book-readout.ts: the sums over the fills of one side. A fill that was counted
-- under its identity is not counted again.
pub mod Replay
use symm.Base.{
  ℕ, String, Bool, true, false, not, ◌&&◌, Option, none, some, List, [], ◌∷◌, ◌++◌, ◌==◌,
  if◌then◌else◌, ◌>>=◌, or_else, any,
}
use symm.Base.Number.{Number, of_ℕ, number_lt, number_le}
use symm.Base.Json.{Json, undefined, null, str, arr, obj, Fields, get, items}
use symm.DeskRow.{Host, or_json, decimal, date_text}

-- The variables of the loop.
pub record Tally : Type 0 where
  pub qty : Number
  pub cost : Number
  pub fee : Number
  pub price_qty : Number
  pub price_notional : Number
  pub saw_fill : Bool
  pub cost_known : Bool
  pub fee_known : Bool
  pub first_at : Option String
  pub last_at : Option String
  pub seen : List String

abbrev pub zero_number : Number
zero_number = of_ℕ 0

abbrev pub empty_tally : Tally
empty_tally = record {
  qty = zero_number;
  cost = zero_number;
  fee = zero_number;
  price_qty = zero_number;
  price_notional = zero_number;
  saw_fill = false;
  cost_known = true;
  fee_known = true;
  first_at = none;
  last_at = none;
  seen = [];
}

-- `ExecutionTotals`
pub record ExecutionTotals : Type 0 where
  pub qty : Option Number
  pub cost : Option Number
  pub fee : Option Number
  pub vwap : Option Number
  pub first_at : Option String
  pub last_at : Option String

-- The fills of a row, which are typed as a list of records. A fill that is no object has no side and
-- is not counted. In the source a null fill throws, and so do `fills` that are neither missing nor
-- iterable; here the former is passed over and the latter are no fills.
abbrev pub fills_in : List Json → List Fields
fills_in [] = []
fills_in (obj fill ∷ vs) = fill ∷ fills_in vs
fills_in (_ ∷ vs) = fills_in vs

abbrev pub fills_of : Json → List Fields
fills_of (arr vs) = fills_in (items vs)
fills_of _ = []

module _ (host : Host) where
  abbrev pub is_side : String → Json → Bool
  is_side side (str s) = host.to_lower s == side
  is_side side _ = false

  -- `String(fill.exec_id ?? fill.trade_id)`, none where both are missing
  unfoldable pub identity_of : Fields → Option String
  identity_of fill = elim (or_json (get "exec_id" fill) (get "trade_id" fill)) [
    | undefined ↦ none
    | null ↦ none
    | str s ↦ some s
    | v ↦ some (host.text_of v)
  ]

  -- The sums with one fill more, of a quantity above zero.
  unfoldable pub add_fill : Number → Fields → Tally → Tally
  unfolding decimal date_text
  add_fill qty fill t =
      let cost = or_else (decimal host (get "cost" fill)) (decimal host (get "cum_cost" fill)) in
      let fee = decimal host (get "fee_usd_equiv" fill) in
      let price =
        or_else (decimal host (get "avg_price" fill)) (decimal host (get "last_price" fill)) in
      let at = date_text host (get "timestamp" fill) in
      record {
        qty = host.add t.qty qty;
        cost = elim cost [ none ↦ t.cost | some c ↦ host.add t.cost c ];
        fee = elim fee [ none ↦ t.fee | some f ↦ host.add t.fee f ];
        price_qty = elim price [ none ↦ t.price_qty | some p ↦ host.add t.price_qty qty ];
        price_notional = elim price [
          | none ↦ t.price_notional
          | some p ↦ host.add t.price_notional (host.mul p qty)
        ];
        saw_fill = true;
        cost_known = elim cost [ none ↦ false | some c ↦ t.cost_known ];
        fee_known = elim fee [ none ↦ false | some f ↦ t.fee_known ];
        first_at = or_else t.first_at at;
        last_at = or_else at t.last_at;
        seen = t.seen;
      }

  -- A fill that was not seen before.
  unfoldable pub count_fill : Fields → Tally → Tally
  unfolding decimal add_fill
  count_fill fill t =
      elim (or_else (decimal host (get "last_qty" fill)) (decimal host (get "cum_qty" fill))) [
        | none ↦ t
        | some qty ↦ if number_le qty zero_number then t else add_fill qty fill t
      ]

  -- One turn of the loop.
  unfoldable pub tally_fill : String → Fields → Tally → Tally
  unfolding identity_of count_fill
  tally_fill side fill t =
      if not (is_side side (get "side" fill)) then t else elim (identity_of fill) [
        | none ↦ count_fill fill t
        | some key ↦
            if any (λ k. k == key) t.seen
            then t
            else count_fill fill (record t { seen = key ∷ t.seen })
      ]

  unfoldable pub tally : String → List Fields → Tally → Tally
  unfolding tally_fill
  tally side [] t = t
  tally side (fill ∷ fills) t = tally side fills (tally_fill side fill t)

  -- The return of `executionTotals`.
  unfoldable pub totals_of : Tally → ExecutionTotals
  totals_of t =
      let priced : Option Number =
        if number_lt zero_number t.price_qty
        then some (host.div t.price_notional t.price_qty)
        else none in
      record {
        qty = if t.saw_fill then some t.qty else none;
        cost = if t.saw_fill && t.cost_known then some t.cost else none;
        fee = if t.saw_fill && t.fee_known then some t.fee else none;
        vwap =
            if t.cost_known && number_lt zero_number t.qty
            then some (host.div t.cost t.qty)
            else priced;
        first_at = t.first_at;
        last_at = t.last_at;
      }

  -- `executionTotals`
  unfoldable pub execution_totals : Fields → String → ExecutionTotals
  unfolding tally totals_of
  execution_totals row side = totals_of (tally side (fills_of (get "fills" row)) empty_tally)
