-- ===== src/Circular/Retained.antt =====
-- The ring against its specification: it holds the newest `positions` values, oldest first.
use symm.Base.{
  ℕ, zero, suc, ◌+◌, ◌-◌, ◌%◌, ◌<◌, ◌≤◌, ◌≡◌, sym, ap, ◌∙◌, Option, none, some, List, [], ◌∷◌, ◌++◌,
  map, append_assoc, append-nil, arith, length, set, get_or, get_or-set_self, take_last, drop,
  length-append, drop_all, take_last-append,
}
use native.Mathlib.Decide.{dec_lt}
use symm.Circular.{Circular, push, values, read_from, push_all}
use symm.Circular.Valid.{IsValid, push-IsValid, positions-push}
use symm.Circular.Reading.{
  mod_once, length-read_from, read_from-snoc, read_from-set_below, read_from-set_first,
  read_from-shift,
}

module _ {T : Type 0} where
  pub length-values : (c : Circular T) → length (values c) ≡ c.count
  unfolding values
  length-values c = length-read_from c.buffer c.positions c.start 0 c.count

  -- A write with room left appends.
  pub window-append :
      (b : List (Option T)) (p s n : ℕ) (v : T)
      → length b ≡ p
      → s < p
      → n < p
      → read_from (set b ((s + n) % p) (some v)) p s 0 (suc n) ≡ read_from b p s 0 n ++ some v ∷ []
  window-append b p s n v hb hs hn =
      let b' : List (Option T) = set b ((s + n) % p) (some v) in
      read_from-snoc b' p s 0 n
      ∙ cc (
        read_from-set_below b p s 0 n n (some v) hs (omega arith) hn,
        ap (λ k. get_or b' ((s + k) % p) none) (zero_left n),
        get_or-set_self b ((s + n) % p) (some v) none
            (omega (arith, mod_once (s + n) p (omega arith))),
      )
    where
      zero_left : (n : ℕ) → 0 + n ≡ n
      zero_left n = omega arith

  -- A write to a full ring drops the oldest value and appends.
  window-rotate :
      (b : List (Option T)) (q s : ℕ) (v : T)
      → length b ≡ suc q
      → s < suc q
      → read_from (set b s (some v)) (suc q) ((s + 1) % suc q) 0 (suc q)
        ≡ read_from b (suc q) s 1 q ++ some v ∷ []
  window-rotate b q s v hb hs =
      let b' : List (Option T) = set b s (some v) in
      read_from-shift b' (suc q) s 0 (suc q)
      ∙ read_from-snoc b' (suc q) s 1 q
      ∙ cc (
        read_from-set_first b (suc q) s 1 q (some v) hs (omega arith) (omega arith),
        ap (λ k. get_or b' k none) (round_trip q s hs),
        get_or-set_self b s (some v) none (omega arith),
      )
    where
      round_trip : (q s : ℕ) → s < suc q → (s + (1 + q)) % suc q ≡ s
      round_trip q s hs = omega (arith, mod_once (s + (1 + q)) (suc q) (omega arith))

  pub take_last_short : (n : ℕ) (xs : List (Option T)) → length xs ≤ n → take_last n xs ≡ xs
  take_last_short n xs h = ap (λ k. drop k xs) {y = 0} (omega arith)

  pub values-push_room :
      (v : T) (c : Circular T)
      → IsValid c
      → c.count < c.positions
      → values (push v c) ≡ values c ++ some v ∷ []
  unfolding values push
  values-push_room v c h room = ground (
    arith,
    window-append c.buffer c.positions c.start c.count v h.storage (h.start_in (omega arith)) room,
  )

  drop_oldest :
      (b : List (Option T)) (q s : ℕ) (v : T)
      → take_last (suc q) (read_from b (suc q) s 0 (suc q) ++ some v ∷ [])
        ≡ read_from b (suc q) s 1 q ++ some v ∷ []
  unfolding read_from
  drop_oldest b q s v =
      let rest : List (Option T) = read_from b (suc q) s 1 q ++ some v ∷ [] in
      ap (λ k. drop k (get_or b ((s + 0) % suc q) none ∷ rest)) {y = 1}
        (omega (
          arith,
          length-append (read_from b (suc q) s 1 q) (some v ∷ []),
          length-read_from b (suc q) s 1 q,
        ))

  -- A full window read after the write is the old one and the new value, less the oldest.
  window_full :
      (b : List (Option T)) (p s n : ℕ) (v : T)
      → length b ≡ p
      → s < p
      → n ≡ p
      → read_from (set b s (some v)) p ((s + 1) % p) 0 n
        ≡ take_last p (read_from b p s 0 n ++ some v ∷ [])
  window_full b zero s n v hb hs hn = absurd (omega arith)
  window_full b (suc q) s n v hb hs hn =
      rw hn (window-rotate b q s v hb hs ∙ sym (drop_oldest b q s v))

  values-push_full :
      (v : T) (c : Circular T)
      → IsValid c
      → 0 < c.positions
      → c.count ≡ c.positions
      → values (push v c) ≡ take_last c.positions (values c ++ some v ∷ [])
  unfolding values push
  values-push_full v c h room full =
      ground
        (arith, window_full c.buffer c.positions c.start c.count v h.storage (h.start_in room) full)

  push_none : (v : T) (c : Circular T) → c.positions ≡ 0 → push v c ≡ c
  unfolding push
  push_none v c empty = ground arith

  -- A ring with no slots keeps nothing.
  values-push_none :
      (v : T) (c : Circular T)
      → IsValid c
      → c.positions ≡ 0
      → values (push v c) ≡ take_last c.positions (values c ++ some v ∷ [])
  values-push_none v c h empty =
      ap values (push_none v c empty)
      ∙ drop_all 0 (values c) (omega (arith, length-values c, h.count_in))
      ∙ sym (
          drop_all (length (values c ++ some v ∷ []) - c.positions) (values c ++ some v ∷ [])
            (omega arith))

  -- One push: the newest `positions` of the values so far and the new one.
  pub values-push :
      (v : T) (c : Circular T)
      → IsValid c
      → values (push v c) ≡ take_last c.positions (values c ++ some v ∷ [])
  values-push v c h = elim (dec_lt c.count c.positions) [
    | yes room ↦
        values-push_room v c h room
        ∙ sym (
            take_last_short c.positions (values c ++ some v ∷ [])
              (omega (arith, length-append (values c) (some v ∷ []), length-values c)))
    | no full ↦ elim (dec_lt 0 c.positions) [
      | yes some_room ↦ values-push_full v c h some_room (omega (arith, h.count_in))
      | no none_room ↦ values-push_none v c h (omega arith)
    ]
  ]

  -- After any pushes a valid ring holds the newest `positions` of the values that it held and the ones
  -- pushed, oldest first.
  pub values-push_all :
      (vs : List T) (c : Circular T)
      → IsValid c
      → values (push_all vs c) ≡ take_last c.positions (values c ++ map some vs)
  unfolding push_all
  values-push_all [] c h = sym (
      ap (take_last c.positions) (append-nil (values c))
      ∙ take_last_short c.positions (values c) (omega (arith, length-values c, h.count_in)))
  values-push_all (v ∷ vs) c h =
      values-push_all vs (push v c) (push-IsValid v c h)
      ∙ ap (λ k. take_last k (values (push v c) ++ map some vs)) (positions-push v c)
      ∙ ap (λ l. take_last c.positions (l ++ map some vs)) (values-push v c h)
      ∙ take_last-append c.positions (values c ++ some v ∷ []) (map some vs)
      ∙ ap (take_last c.positions) (append_assoc (values c) (some v ∷ []) (map some vs))
