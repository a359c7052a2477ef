-- ===== src/DeskRow/Readout.antt =====
-- `positionReadout` of book-readout.ts: what a desk row shows, of its fills, its order and its dates.
use symm.Base.{
  String, Bool, true, false, not, ◌&&◌, ◌||◌, Option, none, some, List, if◌then◌else◌, ◌>>=◌,
  or_else, or_value, is_some, keep,
}
use symm.Base.Number.{Number, of_ℕ, number_le}
use symm.Base.Json.{Json, undefined, null, obj, Fields, get}
use symm.Book.{Book, on_book}
use symm.DeskRow.{Host, decimal, date_text, return_fraction, hold_between}
use symm.DeskRow.Totals.{ExecutionTotals, execution_totals, zero_number}

-- `PositionReadout`
pub record PositionReadout : Type 0 where
  pub qty : Option Number
  pub entry_qty : Option Number
  pub entry_cost : Option Number
  pub exit_qty : Option Number
  pub entry_price : Option Number
  pub mark : Option Number
  pub entry_fee : Option Number
  pub exit_fee : Option Number
  pub fees : Option Number
  pub exit_vwap : Option Number
  pub exit_room : Option Number
  pub return_pct : Option Number
  pub return_pct_display : Option Number
  pub opened_at : Option String
  pub closed_at : Option String
  pub hold_ns : Option Number
  pub closed : Bool
  pub exit_pending : Bool

-- `v != null`
abbrev pub is_there : Json → Bool
is_there undefined = false
is_there null = false
is_there _ = true

-- `buys.qty !== null && sells.qty !== null && sells.qty >= buys.qty`
unfoldable pub is_fully_sold : ExecutionTotals → ExecutionTotals → Bool
is_fully_sold buys sells = elim buys.qty [
  | none ↦ false
  | some bought ↦ elim sells.qty [ none ↦ false | some sold ↦ number_le bought sold ]
]

module _ (host : Host) where
  -- `orderVolume`
  unfoldable pub order_volume : Json → Option Number
  unfolding decimal
  order_volume (obj order) = decimal host (get "volume" order)
  order_volume _ = none

  abbrev pub fees_of : Option Number → Option Number → Option Number
  fees_of entry exit =
      if is_some entry || is_some exit
      then some (host.add (or_value entry zero_number) (or_value exit zero_number))
      else none

  -- `positionReadout`
  unfoldable pub position_readout : Fields → PositionReadout
  unfolding decimal date_text return_fraction hold_between execution_totals is_fully_sold
      order_volume
  position_readout row =
      let buys = execution_totals host row "buy" in
      let sells = execution_totals host row "sell" in
      let ordered = order_volume (get "entry_order" row) in
      let opened_at = or_else (date_text host (get "opened_at" row)) buys.first_at in
      let closed_at = date_text host (get "closed_at" row) in
      let fully_sold = is_fully_sold buys sells in
      let closed = is_some closed_at || fully_sold in
      record {
        qty = or_else buys.qty ordered;
        entry_qty = or_else buys.qty ordered;
        entry_cost = buys.cost;
        exit_qty = sells.qty;
        entry_price = buys.vwap;
        mark = decimal host (get "mark" row);
        entry_fee = buys.fee;
        exit_fee = sells.fee;
        fees = fees_of buys.fee sells.fee;
        exit_vwap = or_else (decimal host (get "exit_vwap" row)) sells.vwap;
        exit_room = decimal host (get "exit_room" row);
        return_pct = return_fraction host row;
        return_pct_display = decimal host (get "pnl_pct" row);
        opened_at = opened_at;
        closed_at = or_else closed_at (if fully_sold then sells.last_at else none);
        hold_ns = hold_between host closed_at opened_at;
        closed = closed;
        exit_pending = is_there (get "exit_order" row) && not closed;
      }

  -- `closeNowReturnPct`
  unfoldable pub close_now_return_pct : Fields → Option Number
  unfolding position_readout
  close_now_return_pct row =
      let readout = position_readout row in
      or_else readout.return_pct_display
        (do fraction ← readout.return_pct; some (host.mul fraction (of_ℕ 100)))

  -- `openOnBook` and `closedOnBook`
  unfoldable pub open_on_book : List Fields → Book → List Fields
  unfolding on_book position_readout
  open_on_book rows book = keep (λ row. on_book row book && not (position_readout row).closed) rows

  unfoldable pub closed_on_book : List Fields → Book → List Fields
  unfolding on_book position_readout
  closed_on_book rows book = keep (λ row. on_book row book && (position_readout row).closed) rows
