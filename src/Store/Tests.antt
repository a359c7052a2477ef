-- ===== src/Store/Tests.antt =====
-- Runs of store.ts.
use symm.Base.{
  ℕ, ◌+◌, lookup, insert, eq_iff, String, List, [], ◌∷◌, ◌++◌, ◌≡◌, refl, some, map, keep,
  take_last, if◌then◌else◌, arith,
}
use symm.Store.{
  done, thrown, KeyedState, empty, empty_node, update_frame, push_rows, push_row, is_inherited,
}
use symm.Circular.{create, push, values, read_from}
use symm.Store.Sound.{IsSound, update_frame-IsSound, empty_node-IsSound}
use symm.Store.Series.{series, has_keys, IsNamed}
use symm.Store.Frames.{series-update_frame, version-update_frame, is_done, is_empty}

record Tick : Type 0 where
  pub symbol : String
  pub layer : String
  pub price : ℕ

abbrev keys : List (Tick → String)
keys = (λ t. t.symbol) ∷ (λ t. t.layer) ∷ []

abbrev tick : String → String → ℕ → Tick
tick symbol layer price = record { symbol = symbol; layer = layer; price = price }

-- The row of BTC on the second layer has its own series, and the row with no symbol has none.
abbrev frame : List Tick
frame =
    tick "BTC" "raw" 1
    ∷ tick "BTC" "raw" 2
    ∷ tick "BTC" "edge" 3
    ∷ tick "" "raw" 4
    ∷ tick "BTC" "raw" 5
    ∷ []

abbrev fresh : KeyedState keys
fresh = empty 2 keys

fresh-IsSound : IsSound 2 keys fresh.root
unfolding empty
fresh-IsSound = empty_node-IsSound 2 keys

frame_ends_well : (update_frame 2 keys frame fresh).1 ≡ done
unfolding update_frame push_rows push_row is_inherited
frame_ends_well = refl

path_IsNamed : IsNamed ("BTC" ∷ "raw" ∷ [])
path_IsNamed =
    (λ e. ground (arith, eq_iff "BTC" "", e), (λ e. ground (arith, eq_iff "raw" "", e), tt))

series-update_frame_example :
    series keys ("BTC" ∷ "raw" ∷ []) (update_frame 2 keys frame fresh).0.root
    ≡ take_last 2 (
        series keys ("BTC" ∷ "raw" ∷ []) fresh.root
        ++ map some (keep (has_keys keys ("BTC" ∷ "raw" ∷ [])) frame))
series-update_frame_example =
    series-update_frame 2 keys ("BTC" ∷ "raw" ∷ []) frame fresh fresh-IsSound path_IsNamed
      frame_ends_well

versioned : (update_frame 2 keys frame fresh).0.version ≡ (
    if is_done (update_frame 2 keys frame fresh).1
    then (if is_empty frame then fresh.version else fresh.version + 1)
    else fresh.version)
versioned = version-update_frame 2 keys frame fresh

update_frame-IsSound_example : IsSound 2 keys (update_frame 2 keys frame fresh).0.root
update_frame-IsSound_example = update_frame-IsSound 2 keys frame fresh fresh-IsSound

-- A leaf key that every object answers to ends the frame with an exception: the rows before it
-- stay, the rows after it are lost, and the version stands.
poisoned :
    let (end, outcome) =
      update_frame 2 keys (tick "A" "raw" 1 ∷ tick "A" "constructor" 2 ∷ []) fresh in
    (outcome ≡ thrown)
    × (end.version ≡ 0)
    × (series keys ("A" ∷ "raw" ∷ []) end.root ≡ some (tick "A" "raw" 1) ∷ [])
unfolding update_frame push_rows push_row is_inherited series empty empty_node lookup insert create
    push values read_from
poisoned = (refl, refl, refl)
