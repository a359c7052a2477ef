-- ===== src/DeskRow/Totals/Replay.antt =====
-- Fills that come again.
use symm.Base.{
  String, ◌≡◌, refl, Bool, true, false, some, List, [], ◌∷◌, ◌++◌, ◌==◌, eq_refl, arith, any, All,
  Bool-cases, Option-cases, inl, inr, ◌∙◌, sym, ap, ◌⊎◌, false-ne-true, or_else,
}
use symm.Base.Number.{number_le}
use symm.Base.Json.{Fields, get}
use symm.DeskRow.{Host, decimal}
use symm.DeskRow.Totals.{
  Tally, empty_tally, is_side, identity_of, add_fill, count_fill, tally_fill, tally, totals_of,
  zero_number,
}

abbrev was_seen : String → List String → Bool
was_seen key seen = any (λ k. k == key) seen

was_seen-cons :
    (key other : String) (seen : List String)
    → was_seen key seen ≡ true
    → was_seen key (other ∷ seen) ≡ true
was_seen-cons key other seen h = ground (arith, h)

module _ (host : Host) where
  count_fill-seen : (fill : Fields) (t : Tally) → (count_fill host fill t).seen ≡ t.seen
  unfolding count_fill add_fill
  count_fill-seen fill t =
      elim (Option-cases
        (or_else (decimal host (get "last_qty" fill)) (decimal host (get "cum_qty" fill)))) [
          | inl e ↦ rw (e, count_fill) refl
          | inr (qty, e) ↦ elim (Bool-cases (number_le qty zero_number)) [
            | inl low ↦ rw (e, low, count_fill) refl
            | inr high ↦ rw (e, high, count_fill) refl
          ]
        ]

  -- A fill that the sums have no use for any more: of another side, or seen.
  abbrev IsSpent : String → List String → Fields → Type 0
  IsSpent side seen fill =
      (is_side host side (get "side" fill) ≡ true)
      → (key : String) × (identity_of host fill ≡ some key) × (was_seen key seen ≡ true)

  tally_fill-spent :
      (side : String) (fill : Fields) (t : Tally)
      → IsSpent side t.seen fill
      → tally_fill host side fill t ≡ t
  unfolding tally_fill
  tally_fill-spent side fill t h = elim (Bool-cases (is_side host side (get "side" fill))) [
    | inr other ↦ rw other refl
    | inl ours ↦ let (key, named, seen) = h ours in rw (ours, named, seen) refl
  ]

  -- What a fill leaves behind: what was seen stays seen, and a named fill of the side is seen.
  tally_fill-grows :
      (side : String) (fill : Fields) (t : Tally) (key : String)
      → was_seen key t.seen ≡ true
      → was_seen key (tally_fill host side fill t).seen ≡ true
  unfolding tally_fill
  tally_fill-grows side fill t key h = elim (Bool-cases (is_side host side (get "side" fill))) [
    | inr other ↦ rw other h
    | inl ours ↦ elim (Option-cases (identity_of host fill)) [
      | inl missing ↦ rw (ours, missing) (ap (was_seen key) (count_fill-seen fill t) ∙ h)
      | inr (other, named) ↦ elim (Bool-cases (was_seen other t.seen)) [
        | inl old ↦ rw (ours, named, old) h
        | inr new ↦
            let marked : Tally = record t { seen = other ∷ t.seen } in
            rw (ours, named, new)
              (ap (was_seen key) (count_fill-seen fill marked) ∙ was_seen-cons key other t.seen h)
      ]
    ]
  ]

  tally_fill-marks :
      (side : String) (fill : Fields) (t : Tally) (key : String)
      → is_side host side (get "side" fill) ≡ true
      → identity_of host fill ≡ some key
      → was_seen key (tally_fill host side fill t).seen ≡ true
  unfolding tally_fill
  tally_fill-marks side fill t key ours named = elim (Bool-cases (was_seen key t.seen)) [
    | inl old ↦ rw (ours, named, old) old
    | inr new ↦
        let marked : Tally = record t { seen = key ∷ t.seen } in
        rw (ours, named, new)
          (ap (was_seen key) (count_fill-seen fill marked) ∙ ground (arith, eq_refl key))
  ]

  tally-grows :
      (side : String) (fills : List Fields) (t : Tally) (key : String)
      → was_seen key t.seen ≡ true
      → was_seen key (tally host side fills t).seen ≡ true
  unfolding tally
  tally-grows side [] t key h = h
  tally-grows side (fill ∷ fills) t key h =
      tally-grows side fills (tally_fill host side fill t) key (tally_fill-grows side fill t key h)

  -- Every fill of the side has an identity.
  abbrev pub IsNamed : String → Fields → Type 0
  IsNamed side fill =
      (is_side host side (get "side" fill) ≡ false)
      ⊎ ((key : String) × (identity_of host fill ≡ some key))

  tally-IsSpent :
      (side : String) (fills : List Fields) (t : Tally)
      → All (IsNamed side) fills
      → All (IsSpent side (tally host side fills t).seen) fills
  unfolding tally
  tally-IsSpent side [] t h = tt
  tally-IsSpent side (fill ∷ fills) t (named, h) =
      let next : Tally = tally_fill host side fill t in
      (
        λ ours. elim named [
          | inl other ↦ absurd (false-ne-true (sym other ∙ ours))
          | inr (key, e) ↦
              (key, e, tally-grows side fills next key (tally_fill-marks side fill t key ours e))
        ],
        tally-IsSpent side fills next h,
      )

  tally-spent :
      (side : String) (fills : List Fields) (t : Tally)
      → All (IsSpent side t.seen) fills
      → tally host side fills t ≡ t
  unfolding tally
  tally-spent side [] t h = refl
  tally-spent side (fill ∷ fills) t (here, h) =
      ap (tally host side fills) (tally_fill-spent side fill t here) ∙ tally-spent side fills t h

  tally-append :
      (side : String) (fills more : List Fields) (t : Tally)
      → tally host side (fills ++ more) t ≡ tally host side more (tally host side fills t)
  unfolding tally
  tally-append side [] more t = refl
  tally-append side (fill ∷ fills) more t =
      tally-append side fills more (tally_fill host side fill t)

  -- Fills that come twice count once: where each fill of a side has an identity, the sums over a list
  -- of fills are those over the list and the same list again.
  pub tally-replay :
      (side : String) (fills : List Fields)
      → All (IsNamed side) fills
      → totals_of host (tally host side (fills ++ fills) empty_tally)
        ≡ totals_of host (tally host side fills empty_tally)
  tally-replay side fills named = ap (totals_of host) (
      tally-append side fills fills empty_tally
      ∙ tally-spent side fills (tally host side fills empty_tally)
          (tally-IsSpent side fills empty_tally named))
