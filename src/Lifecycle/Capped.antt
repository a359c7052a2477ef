-- ===== src/Lifecycle/Capped.antt =====
-- `storeLife` of lifecycle.ts: the map of round trips, in the order of their last change, and the
-- caps on how many it keeps.
pub mod Bounds
pub mod Survive
use symm.Base.{
  ℕ, zero, suc, String, Bool, true, false, not, ◌&&◌, ◌||◌, Option, none, some, List, [], ◌∷◌, ◌==◌,
  if◌then◌else◌, or_value, Dict, lookup, insert, delete, ltb, eqb, keep, length,
}
use symm.Base.Number.{Number, number_eq}
use symm.Listing.{Stamp}
use symm.Lifecycle.{Slot, absent, null, value, slot_of, LifeMark, LifeOutcome, LifeEvent, Lifecycle}

abbrev pub session_lifecycle_limit : ℕ
session_lifecycle_limit = 200

abbrev pub history_lifecycle_cap : ℕ
history_lifecycle_cap = 10_000

-- `!==` of fields
abbrev pub text_differs : Slot String → Slot String → Bool
text_differs absent absent = false
text_differs null null = false
text_differs (value a) (value b) = not (a == b)
text_differs _ _ = true

abbrev pub number_differs : Option Number → Option Number → Bool
number_differs none none = false
number_differs (some a) (some b) = not (number_eq a b)
number_differs _ _ = true

-- `o?.field`: `undefined` where there is no object.
abbrev pub read : {A B : Type 0} → Slot A → (A → B) → Option B
read (value a) field = some (field a)
read _ field = none

-- `list?.length ?? 0`
abbrev pub size_of : {A : Type 0} → Option (List A) → ℕ
size_of none = 0
size_of (some l) = length l

-- `deskLifeChanged`, for a round trip that was there before.
unfoldable pub desk_life_changed : Lifecycle → Lifecycle → Bool
desk_life_changed prev next =
    not (prev.status == next.status)
    || (text_differs prev.closed_at next.closed_at
        || (number_differs (read prev.mark (λ m. m.bid)) (read next.mark (λ m. m.bid))
            || (number_differs (read prev.mark (λ m. m.unrealized_return))
                  (read next.mark (λ m. m.unrealized_return))
                || (number_differs (read prev.outcome (λ o. o.pnl)) (read next.outcome (λ o. o.pnl))
                    || (number_differs (read prev.outcome (λ o. o.pnl_pct))
                          (read next.outcome (λ o. o.pnl_pct))
                        || (not (eqb (size_of prev.marks) (size_of next.marks))
                            || not (eqb (size_of prev.events) (size_of next.events))))))))

-- The maps `lives` and `historyStamp`.
pub record Lives : Type 0 where
  pub lives : Dict Lifecycle
  pub stamps : Dict Stamp

abbrev pub is_history : Lifecycle → Bool
is_history life = or_value life.history false

-- The status of a round trip that may be dropped.
abbrev pub is_over : Lifecycle → Bool
is_over life = life.status == "closed" || life.status == "abandoned"

abbrev pub same_flag : Bool → Bool → Bool
same_flag true b = b
same_flag false b = not b

-- `sessionCount()` at false, `historyCount()` at true
unfoldable pub count_of : Bool → Dict Lifecycle → ℕ
count_of history [] = 0
count_of history ((id, life) ∷ rest) =
    if same_flag history (is_history life)
    then suc (count_of history rest)
    else count_of history rest

-- The loop of `evictClosed`: the first round trip of the kind that is over.
unfoldable pub first_over : Bool → Dict Lifecycle → Option String
first_over history [] = none
first_over history ((id, life) ∷ rest) =
    if same_flag history (is_history life) && is_over life then some id else first_over history rest

-- The `while` loops of `storeLife`: evict until the count is within the limit, or nothing can go.
-- The fuel is the number of round trips, and every turn drops one.
unfoldable pub evict_while : ℕ → Bool → ℕ → Lives → Lives
evict_while zero history limit s = s
evict_while (suc fuel) history limit s = elim (ltb limit (count_of history s.lives)) [
  | false ↦ s
  | true ↦ elim (first_over history s.lives) [
    | none ↦ s
    | some id ↦
        evict_while fuel history limit
          (record { lives = delete id s.lives; stamps = delete id s.stamps })
  ]
]

abbrev pub limit_of : Bool → ℕ
limit_of true = history_lifecycle_cap
limit_of false = session_lifecycle_limit

-- `lives.delete(life.id); lives.set(life.id, life)`: the round trip moves to the end.
unfoldable pub move_to_end : Lifecycle → Lives → Lives
move_to_end life s = record s { lives = insert life.id life (delete life.id s.lives) }

-- Does `storeLife` keep what is there?
unfoldable pub is_unchanged : Lifecycle → Lives → Bool
is_unchanged life s = elim (lookup life.id s.lives) [
  | none ↦ false
  | some prior ↦ not (desk_life_changed prior life)
]

-- `storeLife`
unfoldable pub store_life : Lifecycle → Lives → Lives × Bool
store_life life s =
    let moved = move_to_end life s in
    let kept =
      evict_while (length moved.lives) (is_history life) (limit_of (is_history life)) moved in
    if is_unchanged life s then (s, false) else (kept, true)
