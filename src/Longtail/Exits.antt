-- ===== src/Longtail/Exits.antt =====
-- `classifyExit`, `summarizeExits` and `topExitTriggers` of longtail.ts: the triggers of a ledger's
-- closed lots.
pub mod Mix
use Prim.Native.String
use symm.Base.{
  ℕ, ◌+◌, String, Bool, true, false, not, ◌&&◌, ◌||◌, Option, none, some, List, [], ◌∷◌, ◌++◌, ◌==◌,
  if◌then◌else◌, any, Dict, lookup, insert, or_value, ltb,
}
use symm.Base.Json.{Json, str, arr, Fields, get, items}
use symm.Base.Text.{includes}
use symm.Book.{Book}
use symm.DeskRow.{Host}
use symm.DeskRow.Readout.{closed_on_book}
use symm.Longtail.{ExitMix, empty_exit_mix}

pub data Bucket : Type 0 where
  profit stop policy other : Bucket

abbrev pub has_any : String → List String → Bool
has_any label parts = any (includes label) parts

-- `classifyExit`, of a trigger in lower case
unfoldable pub classify_label : String → Bucket
classify_label label =
    if has_any label ("exit branch" ∷ "learned_exit" ∷ "policy exit" ∷ [])
    then policy
    else if has_any label ("cleared friction" ∷ "pct profit" ∷ "trailing" ∷ "harvest" ∷ [])
        || (includes label "profit" && not (includes label "stop"))
    then profit
    else if has_any label
        ("invalidation" ∷ "friction dip" ∷ "stop" ∷ "exhaustion" ∷ "evaporation" ∷ "drag" ∷ [])
    then stop
    else other

abbrev pub named_texts : List Json → List String
named_texts [] = []
named_texts (str s ∷ vs) = if s == "" then named_texts vs else s ∷ named_texts vs
named_texts (_ ∷ vs) = named_texts vs

abbrev pub listed_triggers : Json → List String
listed_triggers (arr vs) = named_texts (items vs)
listed_triggers _ = []

-- The triggers of a row: the ones that its outcome lists, else the one of its exit.
unfoldable pub triggers_of : Fields → List String
triggers_of row = elim (listed_triggers (get "outcome_triggers" row)) [
  | t ∷ ts ↦ t ∷ ts
  | [] ↦ named_texts (get "exit_trigger" row ∷ [])
]

-- `mix[bucket] += 1; mix.total += 1`
unfoldable pub add_exit : Bucket → ExitMix ℕ → ExitMix ℕ
add_exit profit mix = record mix { profit = mix.profit + 1; total = mix.total + 1 }
add_exit stop mix = record mix { stop = mix.stop + 1; total = mix.total + 1 }
add_exit policy mix = record mix { policy = mix.policy + 1; total = mix.total + 1 }
add_exit other mix = record mix { other = mix.other + 1; total = mix.total + 1 }

-- The insertion of `sort((a, b) => b.count - a.count)`, which is stable.
abbrev pub insert_count : String × ℕ → Dict ℕ → Dict ℕ
insert_count e [] = e ∷ []
insert_count e (f ∷ rest) = if ltb (f.1) (e.1) then e ∷ f ∷ rest else f ∷ insert_count e rest

abbrev pub insert_counts : Dict ℕ → Dict ℕ → Dict ℕ
insert_counts [] sorted = sorted
insert_counts (e ∷ es) sorted = insert_counts es (insert_count e sorted)

abbrev pub first_entries : ℕ → Dict ℕ → Dict ℕ
first_entries ℕ.zero es = []
first_entries (ℕ.suc n) [] = []
first_entries (ℕ.suc n) (e ∷ es) = e ∷ first_entries n es

abbrev pub exit_trigger_cap : ℕ
exit_trigger_cap = 8

unfoldable pub count_triggers : List String → Dict ℕ → Dict ℕ
count_triggers [] counts = counts
count_triggers (t ∷ ts) counts =
    count_triggers ts (insert t (or_value (lookup t counts) 0 + 1) counts)

unfoldable pub count_rows : List Fields → Dict ℕ → Dict ℕ
count_rows [] counts = counts
count_rows (row ∷ rows) counts = count_rows rows (count_triggers (triggers_of row) counts)

module _ (host : Host) where
  -- `classifyExit`
  unfoldable pub classify_exit : String → Bucket
  classify_exit trigger = classify_label (host.to_lower trigger)

  unfoldable pub mix_triggers : List String → ExitMix ℕ → ExitMix ℕ
  mix_triggers [] mix = mix
  mix_triggers (t ∷ ts) mix = mix_triggers ts (add_exit (classify_exit t) mix)

  unfoldable pub mix_rows : List Fields → ExitMix ℕ → ExitMix ℕ
  mix_rows [] mix = mix
  mix_rows (row ∷ rows) mix = mix_rows rows (mix_triggers (triggers_of row) mix)

  -- `summarizeExits`
  unfoldable pub summarize_exits : List Fields → Book → ExitMix ℕ
  summarize_exits rows book = mix_rows (closed_on_book host rows book) empty_exit_mix

  -- `topExitTriggers`
  unfoldable pub top_exit_triggers : List Fields → Book → Dict ℕ
  top_exit_triggers rows book =
      first_entries exit_trigger_cap
        (insert_counts (count_rows (closed_on_book host rows book) []) [])
