-- ===== src/Circular.antt =====
-- frontend/src/collections/circular.ts: the ring buffer behind every live series. An array slot
-- that was never written reads as `undefined`, which is `none`. The sizes that the program passes
-- are small constants, so array indices are exact and `positions` is a natural number.
pub mod Valid
pub mod Reading
pub mod Retained
pub mod Tail
pub mod Visits
mod Tests
use symm.Base.{
  ℕ, zero, suc, ◌+◌, ◌-◌, ◌%◌, Bool, Option, none, some, List, [], ◌∷◌, leb, ltb, eqb,
  if◌then◌else◌, get_or, set, replicate,
}

pub record Circular (T : Type 0) : Type 0 where
  pub buffer : List (Option T)
  pub positions : ℕ
  pub start : ℕ
  pub count : ℕ

module _ {T : Type 0} where
  unfoldable pub create : (positions : ℕ) → Circular T
  create positions = record {
    buffer = replicate positions none;
    positions = positions;
    start = 0;
    count = 0;
  }

  -- `positions <= 0`: nothing is kept.
  unfoldable pub push : T → Circular T → Circular T
  push value c =
      if leb c.positions 0
      then c
      else if ltb c.count c.positions
      then record c {
        buffer = set c.buffer ((c.start + c.count) % c.positions) (some value);
        count = c.count + 1;
      }
      else record c {
        buffer = set c.buffer c.start (some value);
        start = (c.start + 1) % c.positions;
      }

  unfoldable pub replace_tail : T → Circular T → Circular T
  unfolding push
  replace_tail value c =
      if leb c.positions 0
      then c
      else if eqb c.count 0
      then push value c
      else record c { buffer = set c.buffer ((c.start + c.count - 1) % c.positions) (some value) }

  unfoldable pub latest : Circular T → Option T
  latest c =
      if eqb c.count 0 then none else get_or c.buffer ((c.start + c.count - 1) % c.positions) none

  -- The loop of `values`: the `n` slots from `index` on.
  unfoldable pub read_from : List (Option T) → ℕ → ℕ → ℕ → ℕ → List (Option T)
  read_from buffer positions start index zero = []
  read_from buffer positions start index (suc n) =
      get_or buffer ((start + index) % positions) none
      ∷ read_from buffer positions start (index + 1) n

  unfoldable pub values : Circular T → List (Option T)
  values c = read_from c.buffer c.positions c.start 0 c.count

  -- The loop of `forEach`: the calls of `visit`, in order.
  unfoldable pub visits_from : List (Option T) → ℕ → ℕ → ℕ → ℕ → List (Option T × ℕ)
  visits_from buffer positions start index zero = []
  visits_from buffer positions start index (suc n) =
      (get_or buffer ((start + index) % positions) none, index)
      ∷ visits_from buffer positions start (index + 1) n

  unfoldable pub for_each : Circular T → List (Option T × ℕ)
  unfolding visits_from
  for_each c = visits_from c.buffer c.positions c.start 0 c.count

  unfoldable pub physical : Circular T → List (Option T) × ℕ × ℕ
  physical c = (c.buffer, c.start, c.count)

  -- `length()` and `capacity()`
  unfoldable pub size : Circular T → ℕ
  size c = c.count

  unfoldable pub capacity : Circular T → ℕ
  capacity c = c.positions

  -- Values pushed one after another.
  unfoldable pub push_all : List T → Circular T → Circular T
  push_all [] c = c
  push_all (value ∷ rest) c = push_all rest (push value c)

-- `latestOf(buffer?)`
unfoldable pub latest_of : {T : Type 0} → Option (Circular T) → Option T
unfolding latest
latest_of none = none
latest_of (some c) = latest c
