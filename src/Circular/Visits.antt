-- ===== src/Circular/Visits.antt =====
-- `forEach` against `values`.
use symm.Base.{ℕ, zero, suc, ◌+◌, ◌≡◌, refl, Option, List, [], ◌∷◌}
use symm.Circular.{Circular, values, read_from, visits_from, for_each}

-- The items beside `i`, `i + 1`, …
abbrev pub number_from : {A : Type 0} → ℕ → List A → List (A × ℕ)
number_from i [] = []
number_from i (x ∷ xs) = (x, i) ∷ number_from (i + 1) xs

module _ {T : Type 0} where
  visits_from-eq-number_from :
      (b : List (Option T)) (p s i n : ℕ)
      → visits_from b p s i n ≡ number_from i (read_from b p s i n)
  unfolding visits_from read_from
  visits_from-eq-number_from b p s i zero = refl
  visits_from-eq-number_from b p s i (suc n) = cc (visits_from-eq-number_from b p s (i + 1) n)

  -- `forEach` visits what `values` returns, in that order, each with its index.
  pub for_each-eq-values : (c : Circular T) → for_each c ≡ number_from 0 (values c)
  unfolding for_each values
  for_each-eq-values c = visits_from-eq-number_from c.buffer c.positions c.start 0 c.count
