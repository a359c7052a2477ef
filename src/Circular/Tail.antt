-- ===== src/Circular/Tail.antt =====
-- The newest value: `latest` and `replaceTail`.
use symm.Base.{
  ℕ, zero, suc, ◌+◌, ◌-◌, ◌%◌, ◌<◌, ◌≤◌, ◌≡◌, refl, sym, ap, ◌∙◌, Option, none, some, List, [], ◌∷◌,
  ◌++◌, arith, length, set, get_or, drop_all,
}
use native.Mathlib.Decide.{dec_lt}
use symm.Circular.{Circular, push, replace_tail, latest, values, read_from}
use symm.Circular.Valid.{IsValid}
use symm.Circular.Reading.{read_from-snoc}
use symm.Circular.Retained.{window-append, values-push_room, length-values}

module _ {A : Type 0} where
  -- The list with its last item replaced, or with one item where it had none.
  abbrev pub replace_last : A → List A → List A
  replace_last v [] = v ∷ []
  replace_last v (x ∷ []) = v ∷ []
  replace_last v (x ∷ y ∷ ys) = x ∷ replace_last v (y ∷ ys)

  abbrev pub last_or : A → List A → A
  last_or d [] = d
  last_or d (x ∷ xs) = last_or x xs

  pub replace_last-snoc : (v x : A) (xs : List A) → replace_last v (xs ++ x ∷ []) ≡ xs ++ v ∷ []
  replace_last-snoc v x [] = refl
  replace_last-snoc v x (y ∷ []) = refl
  replace_last-snoc v x (y ∷ z ∷ zs) = ap (λ t. y ∷ t) (replace_last-snoc v x (z ∷ zs))

  pub last_or-snoc : (d x : A) (xs : List A) → last_or d (xs ++ x ∷ []) ≡ x
  last_or-snoc d x [] = refl
  last_or-snoc d x (y ∷ ys) = last_or-snoc y x ys

module _ {T : Type 0} where
  -- The tail of a window of `suc m` slots is the slot at offset `m`.
  window_tail :
      (b : List (Option T)) (p s m : ℕ)
      → read_from b p s 0 (suc m) ≡ read_from b p s 0 m ++ get_or b ((s + suc m - 1) % p) none ∷ []
  window_tail b p s m =
      read_from-snoc b p s 0 m
      ∙ ap (λ k. read_from b p s 0 m ++ get_or b (k % p) none ∷ []) (omega arith)

  window_latest :
      (b : List (Option T)) (p s n : ℕ)
      → 0 < n
      → get_or b ((s + n - 1) % p) none ≡ last_or none (read_from b p s 0 n)
  window_latest b p s zero h = absurd (omega arith)
  window_latest b p s (suc m) h = sym (
      ap (last_or none) (window_tail b p s m)
      ∙ last_or-snoc none (get_or b ((s + suc m - 1) % p) none) (read_from b p s 0 m))

  -- `latest` is the last of `values`, and `undefined` for an empty ring.
  pub latest-eq-last : (c : Circular T) → latest c ≡ last_or none (values c)
  unfolding latest values read_from
  latest-eq-last c = elim (dec_lt 0 c.count) [
    | yes h ↦ ground (arith, window_latest c.buffer c.positions c.start c.count h)
    | no h ↦
        ground
          (arith, ap (λ n. last_or none (read_from c.buffer c.positions c.start 0 n)) (zero_of h))
  ]
    where
      zero_of : ¬ (0 < c.count) → c.count ≡ 0
      zero_of h = omega arith

  window_replace :
      (b : List (Option T)) (p s n : ℕ) (v : T)
      → length b ≡ p
      → s < p
      → 0 < n
      → n ≤ p
      → read_from (set b ((s + n - 1) % p) (some v)) p s 0 n
        ≡ replace_last (some v) (read_from b p s 0 n)
  window_replace b p s zero v hb hs h hn = absurd (omega arith)
  window_replace b p s (suc m) v hb hs h hn =
      ap (λ k. read_from (set b (k % p) (some v)) p s 0 (suc m)) {y = s + m} (omega arith)
      ∙ window-append b p s m v hb hs hn
      ∙ sym (
          ap (replace_last (some v)) (window_tail b p s m)
          ∙ replace_last-snoc (some v) (get_or b ((s + suc m - 1) % p) none) (read_from b p s 0 m))

  replace_tail_empty : (v : T) (c : Circular T) → c.count ≡ 0 → replace_tail v c ≡ push v c
  unfolding replace_tail push
  replace_tail_empty v c empty = ground arith

  -- `replaceTail` changes the newest value alone.
  pub values-replace_tail :
      (v : T) (c : Circular T)
      → IsValid c
      → 0 < c.positions
      → values (replace_tail v c) ≡ replace_last (some v) (values c)
  unfolding replace_tail values
  values-replace_tail v c h room = elim (dec_lt 0 c.count) [
    | yes some_values ↦ ground (
      arith,
      window_replace c.buffer c.positions c.start c.count v h.storage (h.start_in room) some_values
          h.count_in,
    )
    | no no_values ↦
        ap values (replace_tail_empty v c (omega arith))
        ∙ values-push_room v c h (omega arith)
        ∙ cc (drop_all 0 (values c) (omega (arith, length-values c)))
  ]
