-- ===== src/Lifecycle/History.antt =====
-- `ingestHistoryClosedBatch` of lifecycle.ts: closed round trips of earlier runs, under the stamp
-- of the frame that brought each.
pub mod Order
pub mod Session
use symm.Base.{
  ℕ, String, Bool, true, false, not, Option, none, some, List, [], ◌∷◌, ◌==◌, ◌||◌, if◌then◌else◌,
  or_value, or_else, Dict, lookup, insert,
}
use symm.Base.Number.{ℤ, int_eq, int_lt}
use symm.Base.Json.{Json, str, Fields, get, string_or_empty}
use symm.Listing.{Stamp, ClosedEntry}
use symm.Lifecycle.{Lifecycle, LifeEvent, LifeMark, Slot, absent, null, value, or_slot, slot_of}
use symm.Lifecycle.Reader.{DeskReader}
use symm.Lifecycle.Capped.{Lives, is_history, store_life}

-- `historyFrameIsNewerStamp`
unfoldable pub is_newer : Stamp → Stamp → Bool
is_newer stamp prior =
    if not (int_eq stamp.epoch prior.epoch)
    then int_lt prior.epoch stamp.epoch
    else if not (int_eq stamp.tick prior.tick)
    then int_lt prior.tick stamp.tick
    else int_lt prior.timestamp stamp.timestamp

-- `existing?.list?.length ? existing.list : list`
abbrev pub prefer_filled : {A : Type 0} → Option (List A) → Option (List A) → Option (List A)
prefer_filled (some (x ∷ xs)) other = some (x ∷ xs)
prefer_filled _ other = other

-- `o?.field` of a field that may be missing
abbrev pub option_of : {A B : Type 0} → Option B → (B → Option A) → Option A
option_of none field = none
option_of (some b) field = field b

-- The fields that a desk row leaves empty, from the round trip that is there.
unfoldable pub fill_gaps : Option Lifecycle → Lifecycle → Lifecycle
fill_gaps existing life = record life {
  policy_epoch = or_else life.policy_epoch (option_of existing (λ e. e.policy_epoch));
  path = or_else life.path (option_of existing (λ e. e.path));
  events = prefer_filled (option_of existing (λ e. e.events)) life.events;
  mark = or_slot life.mark (or_slot (slot_of existing (λ e. e.mark)) null);
  stop_state = or_slot life.stop_state (or_slot (slot_of existing (λ e. e.stop_state)) null);
  policy = or_slot life.policy (or_slot (slot_of existing (λ e. e.policy)) null);
  peak_pct = or_slot life.peak_pct (or_slot (slot_of existing (λ e. e.peak_pct)) null);
  realized_pct = or_slot life.realized_pct (or_slot (slot_of existing (λ e. e.realized_pct)) null);
  pnl_trace = or_slot life.pnl_trace (or_slot (slot_of existing (λ e. e.pnl_trace)) null);
  bars_held = or_slot life.bars_held (or_slot (slot_of existing (λ e. e.bars_held)) null);
  exit_trigger = or_slot life.exit_trigger (or_slot (slot_of existing (λ e. e.exit_trigger)) null);
  official_exit_pct =
      or_slot life.official_exit_pct (or_slot (slot_of existing (λ e. e.official_exit_pct)) null);
  outcome = or_slot life.outcome (or_slot (slot_of existing (λ e. e.outcome)) null);
  path_found = or_else life.path_found (option_of existing (λ e. e.path_found));
  marks_a = or_slot life.marks_a (slot_of existing (λ e. e.marks_a));
  marks_b = or_slot life.marks_b (slot_of existing (λ e. e.marks_b));
  marks_c = or_slot life.marks_c (slot_of existing (λ e. e.marks_c));
}

-- The round trip that a history entry stores.
unfoldable pub history_life : Option Lifecycle → Lifecycle → Lifecycle
history_life existing life =
    let filled = fill_gaps existing (record life { history = some true; desk = some true }) in
    record filled { marks = prefer_filled (option_of existing (λ e. e.marks)) life.marks }

-- Is a session's round trip under this id, or a stamp that is not older?
unfoldable pub is_outranked : Stamp → String → Lives → Bool
is_outranked stamp id s =
    elim (lookup id s.lives) [ none ↦ false | some existing ↦ not (is_history existing) ]
    || elim (lookup id s.stamps) [ none ↦ false | some prior ↦ not (is_newer stamp prior) ]

module _ (reader : DeskReader) where
  -- `ingestHistoryClosedEntry`: the stamp is kept even where the row cannot be read.
  unfoldable pub ingest_history_entry : ClosedEntry → Lives → Lives × Bool
  ingest_history_entry entry s =
      let id = string_or_empty (get "id" entry.row) in
      let stamped = record s { stamps = insert id entry.stamp s.stamps } in
      let result : Lives × Bool = elim (reader.from_closed entry.row) [
        | none ↦ (stamped, false)
        | some life ↦ store_life (history_life (lookup id s.lives) life) stamped
      ] in
      if id == "" then (s, false) else if is_outranked entry.stamp id s then (s, false) else result

  -- The loop of `ingestHistoryClosedBatch`, and whether it publishes.
  unfoldable pub ingest_history_batch : List ClosedEntry → Lives → Lives × Bool
  ingest_history_batch [] s = (s, false)
  ingest_history_batch (entry ∷ entries) s =
      let (s', changed) = ingest_history_entry entry s in
      let (end, later) = ingest_history_batch entries s' in (end, changed || later)
