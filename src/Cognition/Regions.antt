-- ===== src/Cognition/Regions.antt =====
-- The region layers of cognition.ts: their indexes, and the ring of brightness rows of each symbol.
pub mod Rings
pub mod Indexes
pub mod Newest
use Prim.Native.Char.{Char, code}
use Prim.Native.String
use symm.Base.{
  ℕ, ◌+◌, ◌*◌, ◌-◌, String, Bool, true, false, not, ◌&&◌, Option, none, some, List, [], ◌∷◌, ◌++◌,
  ◌==◌, if◌then◌else◌, or_value, Dict, lookup, insert, ltb, set, replicate, take_last, map, length,
  keep,
}
use symm.Base.Number.{Number, number_eq, is_finite, of_ℕ}
use symm.Base.Json.{Json, str, arr, Items, items}
use symm.Base.Text.{after_first, split_slash, non_empty, join_slash, is_digit}
use symm.Cognition.{Cognition, Match}
use symm.Cognition.Symbols.{Split, split_symbol, remember_symbol}

abbrev pub region_count : ℕ
region_count = 23

abbrev pub Row : Type 0
Row = List (Option Number)

-- `RegionRing`
pub record Point : Type 0 where
  pub tick : Number
  pub row : Row

-- `/^R(\d{2})/`, with the two digits as a number
abbrev pub region_digits : String → Option (ℕ × String)
region_digits (String.◌∷◌ r (String.◌∷◌ a (String.◌∷◌ b rest))) =
    if String.◌∷◌ r "" == "R" && (is_digit a && is_digit b)
    then some (10 * (code a - b'0') + (code b - b'0'), rest)
    else none
region_digits _ = none

-- `REGION.test`
unfoldable pub is_region : String → Bool
is_region token = elim (region_digits token) [ none ↦ false | some (n, rest) ↦ rest == "" ]

-- `primaryRegionIndex`
unfoldable pub primary_region_index : String → Option ℕ
primary_region_index token = elim (region_digits token) [
  | none ↦ none
  | some (n, rest) ↦ if ltb n region_count then some n else none
]

-- The loop over the tokens, each with the brightness at its index.
unfoldable pub light : List String → List Number → Row → Row
unfolding primary_region_index
light [] brightness row = row
light (token ∷ tokens) [] row = row
light (token ∷ tokens) (value ∷ brightness) row =
    light tokens brightness
      (elim (primary_region_index token) [ none ↦ row | some sector ↦ set row sector (some value) ])

abbrev pub last_point : List Point → Option Point
last_point [] = none
last_point (p ∷ []) = some p
last_point (p ∷ q ∷ ring) = last_point (q ∷ ring)

-- `prior.slice(0, -1)`
abbrev pub without_last : {A : Type 0} → List A → List A
without_last [] = []
without_last (p ∷ []) = []
without_last (p ∷ q ∷ ring) = p ∷ without_last (q ∷ ring)

-- The row that a tick starts from.
abbrev pub base_row : Option Point → Row
base_row none = replicate region_count none
base_row (some last) = last.row

-- The ring that the row of a tick joins.
abbrev pub kept_ring : Number → List Point → List Point
kept_ring tick prior = elim (last_point prior) [
  | none ↦ take_last 23 prior
  | some last ↦ if number_eq last.tick tick then without_last prior else take_last 23 prior
]

-- The ring of one symbol after `noteRegions`.
unfoldable pub note_ring : Number → List String → List Number → List Point → List Point
unfolding light
note_ring tick tokens brightness prior =
    kept_ring tick prior
    ++ record { tick = tick; row = light tokens brightness (base_row (last_point prior)) } ∷ []

-- `noteRegions`, on `regionRings`; `regionHistoryStore` has the rows of each ring.
unfoldable pub note_regions :
    String → Number → List String → List Number → Dict (List Point) → Dict (List Point)
unfolding note_ring
note_regions symbol tick [] brightness rings = rings
note_regions symbol tick (token ∷ tokens) brightness rings =
    insert symbol (note_ring tick (token ∷ tokens) brightness (or_value (lookup symbol rings) []))
      rings

unfoldable pub history_of : Dict (List Point) → Dict (List Row)
history_of [] = []
history_of ((symbol, ring) ∷ rest) = (symbol, map (λ p. p.row) ring) ∷ history_of rest

-- What a region index tells.
pub record Parsed : Type 0 where
  pub symbol : String
  pub tokens : List String

abbrev pub last_text : List String → Option String
last_text [] = none
last_text (s ∷ []) = some s
last_text (s ∷ t ∷ rest) = last_text (t ∷ rest)

-- The leaf and the sentence before it.
unfoldable pub parse_leaf : String → List String → Option Parsed
parse_leaf symbol parts = elim (last_text parts) [
  | none ↦ none
  | some leaf ↦
      if leaf == "tokens"
      then some (record { symbol = symbol; tokens = [] })
      else if is_region leaf
      then some (record { symbol = symbol; tokens = without_last parts ++ leaf ∷ [] })
      else none
]

-- `parseTrainRegionsIndex`, with the symbols after it.
unfoldable pub parse_train_regions_index : List String → String → Option Parsed × List String
unfolding parse_leaf split_symbol remember_symbol
parse_train_regions_index symbols index = elim (after_first "train/regions/" index) [
  | none ↦ (none, symbols)
  | some tail ↦ elim (split_symbol symbols tail) [
    | none ↦ (none, symbols)
    | some split ↦ (
      parse_leaf split.symbol (non_empty (split_slash split.rest)),
      remember_symbol split.symbol symbols,
    )
  ]
]

-- The match of a sentence: the rejected tokens stay within one tick.
abbrev pub sentence_match : String → Number → List String → Option Match → Match
sentence_match symbol tick tokens prior =
    let rejected : Option (List String) = elim prior [
      | none ↦ some []
      | some p ↦ if number_eq p.tick tick then p.rejected else some []
    ] in
    record {
      symbol = symbol;
      tick = tick;
      tokens = tokens;
      stored = false;
      match_text = "";
      depth = of_ℕ (length tokens);
      action = "";
      live_path = none;
      trigger_path = none;
      policy_path = none;
      similarity = none;
      exact_match = none;
      blocked_reason = none;
      rejected = rejected;
    }

-- The rings, the symbols and the store, which one layer changes.
pub record Learner : Type 0 where
  pub symbols : List String
  pub rings : Dict (List Point)
  pub cognition : Cognition

abbrev pub with_match : String → Match → Cognition → Cognition
with_match symbol found c = record c { matches = insert symbol found c.matches }

-- The texts of a list.
unfoldable pub texts_of : List Json → List String
texts_of [] = []
texts_of (str s ∷ rest) = s ∷ texts_of rest
texts_of (_ ∷ rest) = texts_of rest

abbrev pub list_of : Json → List Json
list_of (arr vs) = items vs
list_of _ = []

module _ (to_number : Json → Number) where
  -- `payload.map(value => Number(value)).filter(Number.isFinite)`
  unfoldable pub brightness_of : Json → List Number
  brightness_of payload = keep is_finite (map to_number (list_of payload))

  abbrev pub sentence : String → Number → List String → Cognition → Cognition
  sentence symbol tick tokens c =
      with_match symbol (sentence_match symbol tick tokens (lookup symbol c.matches)) c

  -- A layer of one region: it lights its sector where it has a brightness.
  unfoldable pub ingest_region : Number → String → List String → Json → Learner → Learner
  unfolding note_regions brightness_of
  ingest_region tick symbol tokens payload s = record s {
    rings = elim (brightness_of payload) [
      | [] ↦ s.rings
      | b ∷ bs ↦ note_regions symbol tick tokens (b ∷ bs) s.rings
    ];
    cognition = sentence symbol tick tokens s.cognition;
  }

  -- A layer of tokens: the sentence, if there is one.
  unfoldable pub ingest_sentence : Number → String → Json → Learner → Learner
  unfolding texts_of
  ingest_sentence tick symbol payload s = elim (texts_of (list_of payload)) [
    | [] ↦ s
    | token ∷ tokens ↦ record s { cognition = sentence symbol tick (token ∷ tokens) s.cognition }
  ]

  -- `ingestTrainRegions`
  unfoldable pub ingest_train_regions : Number → String → Json → Learner → Learner × Bool
  unfolding parse_train_regions_index ingest_region ingest_sentence
  ingest_train_regions tick index payload s =
      let (parsed, symbols) = parse_train_regions_index s.symbols index in
      let s' = record s { symbols = symbols } in
      elim parsed [
        | none ↦ (s', false)
        | some found ↦ elim found.tokens [
          | [] ↦ (ingest_sentence tick found.symbol payload s', true)
          | token ∷ tokens ↦ (ingest_region tick found.symbol (token ∷ tokens) payload s', true)
        ]
      ]

-- `parseTrainRejectIndex`
unfoldable pub parse_train_reject_index : String → Option (String × String)
unfolding is_region
parse_train_reject_index index = elim (after_first "train/reject/" index) [
  | none ↦ none
  | some tail ↦
      let parts = non_empty (split_slash tail) in
      let symbol = join_slash (without_last parts) in
      elim (last_text parts) [
        | none ↦ none
        | some token ↦ if is_region token && not (symbol == "") then some (symbol, token) else none
      ]
]

-- The match of a symbol with one more rejected token.
abbrev pub reject_match : String → Number → String → Option Match → Match
reject_match symbol tick token none = record (sentence_match symbol tick [] none) {
  rejected = some (token ∷ []);
}
reject_match symbol tick token (some prior) = record prior {
  tick = tick;
  rejected =
      if number_eq prior.tick tick
      then some (or_value prior.rejected [] ++ token ∷ [])
      else some (token ∷ []);
}

-- `ingestTrainReject`
unfoldable pub ingest_train_reject : Number → String → Cognition → Cognition × Bool
unfolding parse_train_reject_index
ingest_train_reject tick index c = elim (parse_train_reject_index index) [
  | none ↦ (c, false)
  | some (symbol, token) ↦
      (with_match symbol (reject_match symbol tick token (lookup symbol c.matches)) c, true)
]
