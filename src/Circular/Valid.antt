-- ===== src/Circular/Valid.antt =====
-- The representation invariant of circular.ts, and that every operation keeps it.
use symm.Base.{
  ℕ, ◌+◌, ◌-◌, ◌%◌, ◌<◌, ◌≤◌, ◌≡◌, none, some, List, [], ◌∷◌, arith, length, length-set,
  length-replicate,
}
use native.Mathlib.Nat.{mod-lt}
use symm.Circular.{Circular, create, push, replace_tail, push_all}

pub record IsValid {T : Type 0} (c : Circular T) : Type 0 where
  pub storage : length c.buffer ≡ c.positions
  pub start_in : 0 < c.positions → c.start < c.positions
  pub count_in : c.count ≤ c.positions

module _ {T : Type 0} where
  pub create-IsValid : (n : ℕ) → IsValid (create {T = T} n)
  unfolding create
  create-IsValid n = record {
    storage = length-replicate n none;
    start_in = λ h. h;
    count_in = omega arith;
  }

  pub push-IsValid : (v : T) (c : Circular T) → IsValid c → IsValid (push v c)
  unfolding push
  push-IsValid v c h = ground (
    arith,
    length-set c.buffer ((c.start + c.count) % c.positions) (some v),
    length-set c.buffer c.start (some v),
    mod-lt (c.start + 1) {m = c.positions},
    h.start_in,
  )

  pub replace_tail-IsValid : (v : T) (c : Circular T) → IsValid c → IsValid (replace_tail v c)
  unfolding replace_tail
  replace_tail-IsValid v c h = ground (
    arith,
    length-set c.buffer ((c.start + c.count - 1) % c.positions) (some v),
    push-IsValid v c h,
    h.start_in,
  )

  pub push_all-IsValid : (vs : List T) (c : Circular T) → IsValid c → IsValid (push_all vs c)
  unfolding push_all
  push_all-IsValid [] c h = h
  push_all-IsValid (v ∷ vs) c h = push_all-IsValid vs (push v c) (push-IsValid v c h)

  pub positions-push : (v : T) (c : Circular T) → (push v c).positions ≡ c.positions
  unfolding push
  positions-push v c = ground arith
