-- ===== src/Cognition/Regions/Rings.antt =====
-- The rings of brightness rows: their size, and what the newest row shows.
use symm.Base.{
  ℕ, zero, suc, ◌-◌, ◌≤◌, ◌<◌, String, Option, none, some, List, [], ◌∷◌, ◌≡◌, refl, ap, ◌∙◌,
  or_value, Dict, lookup, Values, Values-lookup, Values-insert, All, All-append, length,
  length-append, length-take_last, length-set, length-replicate, set, drop, take_last, arith,
  Bool-cases, Option-cases, List-cases, inl, inr, ltb, none-ne-some, value-eq_of_some,
}
use mathlib.Core.Path.{subst}
use symm.Base.Number.{Number, number_eq}
use symm.Base.Json.{Json}
use symm.Cognition.Regions.{
  Row, Point, region_count, primary_region_index, light, last_point, without_last, base_row,
  kept_ring, note_ring, note_regions, brightness_of, Learner, ingest_region, ingest_sentence,
  ingest_train_regions, parse_train_regions_index, texts_of, list_of, region_digits,
}

abbrev pub IsFull : Point → Type 0
IsFull p = length p.row ≡ region_count

-- At most 24 rows, of 23 sectors each.
pub record IsSized (ring : List Point) : Type 0 where
  pub bounded : length ring ≤ 24
  pub full : All IsFull ring

primary_region_index-lt :
    (token : String) {n : ℕ} → primary_region_index token ≡ some n → n < region_count
unfolding primary_region_index
primary_region_index-lt token {n} e = elim (Option-cases (region_digits token)) [
  | inl missing ↦ absurd (none-ne-some (rw (missing, primary_region_index) at e))
  | inr ((k, rest), found) ↦ elim (Bool-cases (ltb k region_count)) [
    | inl below ↦
        let same : k ≡ n = value-eq_of_some (rw (found, below, primary_region_index) at e) in
        ground (arith, below, same)
    | inr above ↦ absurd (none-ne-some (rw (found, above, primary_region_index) at e))
  ]
]

length-light :
    (tokens : List String) (brightness : List Number) (row : Row)
    → length (light tokens brightness row) ≡ length row
unfolding light
length-light [] brightness row = refl
length-light (token ∷ tokens) [] row = refl
length-light (token ∷ tokens) (v ∷ brightness) row =
    elim (Option-cases (primary_region_index token)) [
      | inl none_found ↦ rw none_found (length-light tokens brightness row)
      | inr (n, found) ↦
          rw found (length-light tokens brightness (set row n (some v)) ∙ length-set row n (some v))
    ]

length-without_last : (ring : List Point) → length (without_last ring) ≡ length ring - 1
length-without_last [] = refl
length-without_last (p ∷ []) = refl
length-without_last (p ∷ q ∷ ring) = ap suc (length-without_last (q ∷ ring)) ∙ omega arith

without_last-All : (P : Point → Type 0) (ring : List Point) → All P ring → All P (without_last ring)
without_last-All P [] h = h
without_last-All P (p ∷ []) h = tt
without_last-All P (p ∷ q ∷ ring) (here, rest) = (here, without_last-All P (q ∷ ring) rest)

drop-All : (P : Point → Type 0) (n : ℕ) (ring : List Point) → All P ring → All P (drop n ring)
drop-All P zero ring h = h
drop-All P (suc n) [] h = tt
drop-All P (suc n) (p ∷ ring) (here, rest) = drop-All P n ring rest

last_point-All :
    (P : Point → Type 0) (ring : List Point) {p : Point}
    → All P ring
    → last_point ring ≡ some p
    → P p
last_point-All P [] h e = absurd (none-ne-some e)
last_point-All P (p ∷ []) (here, h) e = subst P (value-eq_of_some e) here
last_point-All P (p ∷ q ∷ ring) (here, rest) e = last_point-All P (q ∷ ring) rest e

-- What a row joins is sized, with room for it.
kept_ring-IsSized :
    (tick : Number) (prior : List Point)
    → IsSized prior
    → (length (kept_ring tick prior) ≤ 23) × All IsFull (kept_ring tick prior)
kept_ring-IsSized tick prior h = elim (Option-cases (last_point prior)) [
  | inl missing ↦ rw (missing, kept_ring, length) (newest 23 prior h)
  | inr (last, found) ↦ elim (Bool-cases (number_eq last.tick tick)) [
    | inl same ↦
        rw (found, same, kept_ring, length)
          (
            omega (arith, length-without_last prior, h.bounded),
            without_last-All IsFull prior h.full,
          )
    | inr other ↦ rw (found, other, kept_ring, length) (newest 23 prior h)
  ]
]
  where
    newest :
        (n : ℕ) (ring : List Point)
        → IsSized ring
        → (length (take_last n ring) ≤ n) × All IsFull (take_last n ring)
    newest n ring h =
        (omega (arith, length-take_last n ring), drop-All IsFull (length ring - n) ring h.full)

pub base_row-full :
    (ring : List Point) → All IsFull ring → length (base_row (last_point ring)) ≡ region_count
base_row-full ring h = elim (Option-cases (last_point ring)) [
  | inl missing ↦ rw missing (length-replicate {A = Option Number} region_count none)
  | inr (last, found) ↦ rw found (last_point-All IsFull ring h found)
]

note_ring-IsSized :
    (tick : Number) (tokens : List String) (brightness : List Number) (prior : List Point)
    → IsSized prior
    → IsSized (note_ring tick tokens brightness prior)
unfolding note_ring
note_ring-IsSized tick tokens brightness prior h =
    let (short, full) = kept_ring-IsSized tick prior h in
    let row : Row = light tokens brightness (base_row (last_point prior)) in
    let point : Point = record { tick = tick; row = row } in
    record {
      bounded = omega (arith, length-append (kept_ring tick prior) (point ∷ []), short);
      full = All-append IsFull (kept_ring tick prior) (point ∷ []) full (
        length-light tokens brightness (base_row (last_point prior)) ∙ base_row-full prior h.full,
        tt,
      );
    }

abbrev pub AreSized : Dict (List Point) → Type 0
AreSized = Values IsSized

note_regions-AreSized :
    (symbol : String) (tick : Number) (tokens : List String) (brightness : List Number)
    (rings : Dict (List Point))
    → AreSized rings
    → AreSized (note_regions symbol tick tokens brightness rings)
unfolding note_regions
note_regions-AreSized symbol tick [] brightness rings h = h
note_regions-AreSized symbol tick (token ∷ tokens) brightness rings h =
    Values-insert IsSized symbol _ rings
      (note_ring-IsSized tick (token ∷ tokens) brightness (or_value (lookup symbol rings) [])
        (elim (Option-cases (lookup symbol rings)) [
          | inl missing ↦ rw missing (record { bounded = omega arith; full = tt })
          | inr (ring, found) ↦ rw found (Values-lookup IsSized symbol rings h found)
        ]))
      h

-- A layer of the hub: its tick, its index and its payload.
pub record Arrival : Type 0 where
  pub tick : Number
  pub index : String
  pub payload : Json

module _ (to_number : Json → Number) where
  ingest_region-AreSized :
      (tick : Number) (symbol : String) (tokens : List String) (payload : Json) (s : Learner)
      → AreSized s.rings
      → AreSized (ingest_region to_number tick symbol tokens payload s).rings
  unfolding ingest_region
  ingest_region-AreSized tick symbol tokens payload s h =
      elim (List-cases (brightness_of to_number payload)) [
        | inl dark ↦ rw (dark, ingest_region) h
        | inr (b, bs, lit) ↦
            rw (lit, ingest_region) (note_regions-AreSized symbol tick tokens (b ∷ bs) s.rings h)
      ]

  ingest_sentence-AreSized :
      (tick : Number) (symbol : String) (payload : Json) (s : Learner)
      → AreSized s.rings
      → AreSized (ingest_sentence to_number tick symbol payload s).rings
  unfolding ingest_sentence
  ingest_sentence-AreSized tick symbol payload s h =
      elim (List-cases (texts_of (list_of payload))) [
        | inl empty ↦ rw (empty, ingest_sentence) h
        | inr (token, tokens, words) ↦ rw (words, ingest_sentence) h
      ]

  ingest_train_regions-AreSized :
      (layer : Arrival) (s : Learner)
      → AreSized s.rings
      → AreSized (ingest_train_regions to_number layer.tick layer.index layer.payload s).0.rings
  unfolding ingest_train_regions
  ingest_train_regions-AreSized layer s h =
      let symbols : List String = (parse_train_regions_index s.symbols layer.index).1 in
      let s' : Learner = record s { symbols = symbols } in
      elim (Option-cases (parse_train_regions_index s.symbols layer.index).0) [
        | inl foreign ↦ rw (foreign, ingest_train_regions) h
        | inr (found, read) ↦ elim (List-cases found.tokens) [
          | inl words ↦
              rw (read, words, ingest_train_regions)
                (ingest_sentence-AreSized layer.tick found.symbol layer.payload s' h)
          | inr (token, tokens, region) ↦
              rw (read, region, ingest_train_regions)
                (ingest_region-AreSized layer.tick found.symbol (token ∷ tokens) layer.payload s' h)
        ]
      ]

  -- The state after some layers.
  unfoldable pub ingest_layers : List Arrival → Learner → Learner
  unfolding ingest_train_regions
  ingest_layers [] s = s
  ingest_layers (layer ∷ layers) s =
      ingest_layers layers (ingest_train_regions to_number layer.tick layer.index layer.payload s).0

  -- However many layers arrive, and whatever they hold: where no ring held more than 24 rows and
  -- each row had 23 sectors, that is so after them.
  pub ingest_layers-AreSized :
      (layers : List Arrival) (s : Learner)
      → AreSized s.rings
      → AreSized (ingest_layers layers s).rings
  unfolding ingest_layers
  ingest_layers-AreSized [] s h = h
  ingest_layers-AreSized (layer ∷ layers) s h =
      ingest_layers-AreSized layers
        (ingest_train_regions to_number layer.tick layer.index layer.payload s).0
        (ingest_train_regions-AreSized layer s h)
