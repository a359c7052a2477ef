-- ===== src/Listing/Tests.antt =====
-- Runs of s3-prefix-compact.ts.
use symm.Base.{
  String, true, Option, none, some, [], ◌∷◌, ◌≡◌, refl, ◌==◌, lookup, insert, if◌then◌else◌,
}
use symm.Base.Number.{ℤ, pos, nan}
use symm.Base.Json.{
  Json, null, num, bigint, str, arr, obj, nil, cons, Fields, field, end, get, string_or_empty,
}
use symm.Explore.{explore_base_threshold, explore_path_kept, is_path_book_key}
use symm.Listing.{ClosedCompact, ExploreCompact, paths_listing_from_envelope, paths_scope}
use symm.Listing.Paths.{IsPathListing, paths_listing_sound}

abbrev parse_bigint : String → Option ℤ
parse_bigint text = if text == "7" then some (pos 7) else none

abbrev lot : Fields
lot = field "id" (str "lot-1") end

-- A lot with no label, an entry with no row, and one whose row has no id.
abbrev payload : Json
payload = obj (
    field "scope" (str "real/closed/2026") (
      field "entries"
        (arr (
          cons
            (obj
              (field "epoch" (str "7") (field "tick" (bigint (pos 3)) (field "row" (obj lot) end))))
            (cons (obj (field "row" null end)) (cons (obj (field "row" (obj end) end)) nil))))
        end))

abbrev compact : ClosedCompact
compact = record {
  scope = "real/closed/2026";
  entries =
      record {
        stamp = record { epoch = pos 7; tick = pos 3; timestamp = pos 0 };
        row = field "id" (str "lot-1") (field "book" (str "real") end);
      }
      ∷ [];
}

abbrev paths_body : Fields
paths_body = field "scope" (str "model/paths") (
    field "epoch" (str "12") (
      field "thresholds"
        (obj (
          field "model/paths/b" (num explore_base_threshold) (field "model/paths/a" (num nan) end)))
        (field "policy_keys"
          (arr (cons (str "model/paths/b") (cons (str "") (cons (str "model/paths/a") nil)))) end)))

abbrev paths : ExploreCompact
paths = record {
  scope = "model/paths";
  epoch = some "12";
  policy_keys = "model/paths/a" ∷ "model/paths/b" ∷ [];
  thresholds = ("model/paths/b", explore_base_threshold) ∷ [];
}

paths_listed : paths_listing_from_envelope (obj paths_body) ≡ some paths
unfolding paths_listing_from_envelope explore_path_kept is_path_book_key lookup insert
paths_listed = refl

paths_listing_sound_example :
    (body : Fields) × (obj paths_body ≡ obj body)
    × (paths_scope (string_or_empty (get "scope" body)) ≡ true)
    × IsPathListing body paths
paths_listing_sound_example = paths_listing_sound (obj paths_body) paths paths_listed
