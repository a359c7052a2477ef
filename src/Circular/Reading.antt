-- ===== src/Circular/Reading.antt =====
-- What a window of the ring's slots reads after a write.
use symm.Base.{
  ℕ, zero, suc, ◌+◌, ◌-◌, ◌%◌, ◌<◌, ◌≤◌, ◌≡◌, refl, ap, ◌∙◌, ◌≢◌, ◌⊎◌, inl, inr, Option, none, List,
  [], ◌∷◌, ◌++◌, arith, length, set, get_or, get_or-set_ne,
}
use native.Mathlib.Nat.{mod-add-mod, mod-eq_of_lt, mod-eq-sub-mod}
use native.Mathlib.Decide.{dec_lt}
use symm.Circular.{read_from}

-- An index below twice the size wraps at most once.
pub mod_once : (x n : ℕ) → x < n + n → ((x < n) × (x % n ≡ x)) ⊎ ((n ≤ x) × (x % n ≡ x - n))
mod_once x n h = elim (dec_lt x n) [
  | yes p ↦ inl (p, mod-eq_of_lt p)
  | no p ↦ inr (
    omega arith,
    mod-eq-sub-mod {n = x} {m = n} (omega arith) ∙ mod-eq_of_lt {n = x - n} {m = n} (omega arith),
  )
]

-- Two offsets below the size reach two slots.
pub slot-ne : (n s i k : ℕ) → s < n → i < k → k < n → (s + k) % n ≢ (s + i) % n
slot-ne n s i k hs hi hk =
    omega (arith, mod_once (s + k) n (omega arith), mod_once (s + i) n (omega arith))

module _ {T : Type 0} where
  pub length-read_from : (b : List (Option T)) (p s i n : ℕ) → length (read_from b p s i n) ≡ n
  unfolding read_from
  length-read_from b p s i zero = refl
  length-read_from b p s i (suc n) = ap suc (length-read_from b p s (i + 1) n)

  pub read_from-snoc :
      (b : List (Option T)) (p s i n : ℕ)
      → read_from b p s i (suc n) ≡ read_from b p s i n ++ get_or b ((s + (i + n)) % p) none ∷ []
  unfolding read_from
  read_from-snoc b p s i zero = ap (λ k. get_or b ((s + k) % p) none ∷ []) (omega arith)
  read_from-snoc b p s i (suc n) =
      ap (λ t. get_or b ((s + i) % p) none ∷ t)
        (read_from-snoc b p s (i + 1) n
          ∙ ap (λ k. read_from b p s (i + 1) n ++ get_or b ((s + k) % p) none ∷ []) (shift i n))
    where
      shift : (i n : ℕ) → i + 1 + n ≡ i + suc n
      shift i n = omega arith

  -- A write at offset `k` leaves the offsets below it alone.
  pub read_from-set_below :
      (b : List (Option T)) (p s i n k : ℕ) (v : Option T)
      → s < p
      → i + n ≤ k
      → k < p
      → read_from (set b ((s + k) % p) v) p s i n ≡ read_from b p s i n
  unfolding read_from
  read_from-set_below b p s i zero k v hs hn hk = refl
  read_from-set_below b p s i (suc n) k v hs hn hk = cc (
    get_or-set_ne b ((s + k) % p) ((s + i) % p) v none (slot-ne p s i k hs (omega arith) hk),
    read_from-set_below b p s (i + 1) n k v hs (omega arith) hk,
  )

  -- A write at offset 0 leaves the later offsets alone.
  pub read_from-set_first :
      (b : List (Option T)) (p s i n : ℕ) (v : Option T)
      → s < p
      → 0 < i
      → i + n ≤ p
      → read_from (set b s v) p s i n ≡ read_from b p s i n
  unfolding read_from
  read_from-set_first b p s i zero v hs hi hn = refl
  read_from-set_first b p s i (suc n) v hs hi hn = cc (
    get_or-set_ne b s ((s + i) % p) v none (λ e. omega (arith, mod_once (s + i) p (omega arith))),
    read_from-set_first b p s (i + 1) n v hs (omega arith) (omega arith),
  )

  -- Starting one slot later is reading from the next offset.
  pub read_from-shift :
      (b : List (Option T)) (p s i n : ℕ)
      → read_from b p ((s + 1) % p) i n ≡ read_from b p s (i + 1) n
  unfolding read_from
  read_from-shift b p s i zero = refl
  read_from-shift b p s i (suc n) = cc (
    ap (λ j. get_or b j none) (mod-add-mod (s + 1) p i ∙ ap (λ j. j % p) (regroup s i)),
    read_from-shift b p s (i + 1) n,
  )
    where
      regroup : (s i : ℕ) → s + 1 + i ≡ s + (i + 1)
      regroup s i = omega arith
