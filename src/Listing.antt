-- ===== src/Listing.antt =====
-- frontend/src/hub/s3-prefix-compact.ts: the hub's listings of a path book and of closed lots, as
-- the collections take them. `BigInt(text)` of the standard library is a parameter: the integer,
-- or none where it throws.
pub mod Listed
pub mod Paths
pub mod Closed
mod Tests
use Prim.Native.String
use symm.Base.{
  ℕ, String, Bool, true, false, not, ◌&&◌, ◌||◌, Option, none, some, List, [], ◌∷◌, ◌++◌, ◌==◌,
  if◌then◌else◌, any, Dict, lookup, insert, map,
}
use symm.Base.Number.{ℤ, pos, Number, finite, is_finite, trunc_units}
use symm.Base.Text.{starts_with, decimal}
use symm.Base.Sorting.{sort}
use symm.Base.Json.{
  Json, undefined, null, bool, num, bigint, str, arr, obj, Items, Fields, field, items, entries,
  indexed, get, put, string_or_empty, plain_object,
}
use symm.Explore.{filter_explore_keys}
use symm.Book.{Book, paper, virtual, real, book_name}

pub record Stamp : Type 0 where
  pub epoch : ℤ
  pub tick : ℤ
  pub timestamp : ℤ

-- `ClosedHistoryEntry`
pub record ClosedEntry : Type 0 where
  pub stamp : Stamp
  pub row : Fields

-- `S3ClosedCompact`
pub record ClosedCompact : Type 0 where
  pub scope : String
  pub entries : List ClosedEntry

-- `S3ExploreCompact`
pub record ExploreCompact : Type 0 where
  pub scope : String
  pub epoch : Option String
  pub policy_keys : List String
  pub thresholds : Dict Number

-- `asFiniteNumber`
abbrev pub as_finite_number : Json → Option Number
as_finite_number (num n) = if is_finite n then some n else none
as_finite_number _ = none

-- `String(Math.trunc(n))` of a finite number, in decimal; at 1e21 and above `String` writes an
-- exponent, which no epoch reaches.
abbrev pub integer_text : ℤ → String
integer_text (pos n) = decimal n
integer_text (ℤ.negsuc n) = String.◌++◌ "-" (decimal (ℕ.suc n))

-- The entries of `body.thresholds`, an object or an array.
abbrev pub listed_entries : Json → Dict Json
listed_entries (obj fs) = entries fs
listed_entries (arr vs) = indexed 0 vs
listed_entries _ = []

-- The loop that collects the finite thresholds.
unfoldable pub collect_thresholds : Dict Json → Dict Number → Dict Number
collect_thresholds [] thresholds = thresholds
collect_thresholds ((key, raw) ∷ rest) thresholds =
    collect_thresholds rest
      (elim (as_finite_number raw) [ none ↦ thresholds | some value ↦ insert key value thresholds ])

-- `listedKeys`: the keys that the envelope lists, or else those of the thresholds.
abbrev pub listed_keys : Fields → Dict Number → List Json
listed_keys body thresholds = elim (get "policy_keys" body) [
  | arr keys ↦ items keys
  | _ ↦ elim (get "policyKeys" body) [ arr keys ↦ items keys | _ ↦ map (λ e. str (e.0)) thresholds ]
]

-- The loop that keeps the texts that are not empty.
unfoldable pub text_keys : List Json → List String
text_keys [] = []
text_keys (str key ∷ rest) = if key == "" then text_keys rest else key ∷ text_keys rest
text_keys (_ ∷ rest) = text_keys rest

-- The loop that keeps the thresholds of the kept keys.
unfoldable pub pick_thresholds : List String → Dict Number → Dict Number → Dict Number
pick_thresholds [] thresholds kept = kept
pick_thresholds (key ∷ keys) thresholds kept =
    pick_thresholds keys thresholds
      (elim (lookup key thresholds) [ none ↦ kept | some value ↦ insert key value kept ])

abbrev pub epoch_of : Json → Option String
epoch_of (str text) = if text == "" then none else some text
epoch_of (num (finite n)) = some (integer_text (trunc_units n))
epoch_of _ = none

unfoldable pub paths_scope : String → Bool
paths_scope scope = scope == "model/paths" || starts_with scope "model/paths/"

unfoldable pub explore_compact : Fields → ExploreCompact
unfolding collect_thresholds text_keys pick_thresholds filter_explore_keys sort
explore_compact body =
    let thresholds = collect_thresholds (listed_entries (get "thresholds" body)) [] in
    let kept_keys =
      filter_explore_keys (sort (text_keys (listed_keys body thresholds))) (some thresholds) in
    record {
      scope = "model/paths";
      epoch = epoch_of (get "epoch" body);
      policy_keys = kept_keys;
      thresholds = pick_thresholds kept_keys thresholds [];
    }

-- `pathsListingFromEnvelope`
unfoldable pub paths_listing_from_envelope : Json → Option ExploreCompact
unfolding paths_scope explore_compact
paths_listing_from_envelope payload = elim (plain_object payload) [
  | none ↦ none
  | some body ↦
      if paths_scope (string_or_empty (get "scope" body)) then some (explore_compact body) else none
]

abbrev pub closed_scopes : List String
closed_scopes = "paper/closed" ∷ "real/closed" ∷ "virtual/closed" ∷ []

unfoldable pub closed_scope : String → Bool
closed_scope scope = any (λ s. scope == s || starts_with scope (String.◌++◌ s "/")) closed_scopes

-- `bookFromClosedScope`
unfoldable pub book_from_closed_scope : String → Book
book_from_closed_scope scope =
    if starts_with scope "virtual/"
    then virtual
    else if starts_with scope "real/"
    then real
    else paper

-- `{ ...row, book }` for a row with no label
unfoldable pub stamp_book : Book → Fields → Fields
unfolding book_name
stamp_book book row = elim (get "book" row) [
  | str label ↦ if label == "" then put "book" (str (book_name book)) row else row
  | _ ↦ put "book" (str (book_name book)) row
]

module _ (parse_bigint : String → Option ℤ) where
  -- `asBigInt`
  unfoldable pub as_bigint : Json → ℤ
  as_bigint (bigint n) = n
  as_bigint (num (finite n)) = trunc_units n
  as_bigint (str text) =
      if text == "" then pos 0 else elim (parse_bigint text) [ none ↦ pos 0 | some n ↦ n ]
  as_bigint _ = pos 0

  -- One turn of the loop over `body.entries`: an entry that is no object, or whose row is none or
  -- has no id, is left out.
  unfoldable pub closed_entry : Book → Json → Option ClosedEntry
  unfolding as_bigint stamp_book
  closed_entry book raw = elim (plain_object raw) [
    | none ↦ none
    | some entry ↦ elim (plain_object (get "row" entry)) [
      | none ↦ none
      | some row ↦
          if string_or_empty (get "id" row) == ""
          then none
          else some (record {
            stamp = record {
              epoch = as_bigint (get "epoch" entry);
              tick = as_bigint (get "tick" entry);
              timestamp = as_bigint (get "timestamp" entry);
            };
            row = stamp_book book row;
          })
    ]
  ]

  unfoldable pub closed_entries : Book → List Json → List ClosedEntry
  unfolding closed_entry
  closed_entries book [] = []
  closed_entries book (raw ∷ rest) = elim (closed_entry book raw) [
    | none ↦ closed_entries book rest
    | some entry ↦ entry ∷ closed_entries book rest
  ]

  -- The listing of a scope, by what `body.entries` is.
  abbrev pub compact_of : String → Json → ClosedCompact
  compact_of scope (arr raws) = record {
    scope = scope;
    entries = closed_entries (book_from_closed_scope scope) (items raws);
  }
  compact_of scope _ = record { scope = scope; entries = [] }

  unfoldable pub closed_compact : Fields → ClosedCompact
  unfolding book_from_closed_scope closed_entries
  closed_compact body = compact_of (string_or_empty (get "scope" body)) (get "entries" body)

  -- `closedListingFromEnvelope`
  unfoldable pub closed_listing_from_envelope : Json → Option ClosedCompact
  unfolding closed_compact closed_scope
  closed_listing_from_envelope payload = elim (plain_object payload) [
    | none ↦ none
    | some body ↦
        if closed_scope (string_or_empty (get "scope" body))
        then some (closed_compact body)
        else none
  ]
