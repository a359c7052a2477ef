-- ===== src/Listing/Paths.antt =====
-- What a listing of the path book holds.
use symm.Base.{
  String, ◌≡◌, refl, ap, ◌∙◌, Bool, true, Option, none, some, ◌==◌, eq_iff, arith, if◌then◌else◌,
  List, [], ◌∷◌, All, none-ne-some, Bool-cases, Option-cases, inl, inr, Dict, lookup, insert,
  lookup-insert, any, is_some, ◌&&◌, keep,
}
use symm.Base.Number.{Number}
use symm.Base.Sorting.{sort, sort-IsSorted, IsSorted}
use symm.Base.Text.{text_le}
use symm.Base.Json.{Json, obj, Fields, get, string_or_empty}
use symm.Explore.{explore_path_kept, filter_explore_keys}
use symm.Listing.Listed.{
  has_key, is_shown, number_in, stored_in, lookup-thresholds, has_key-is_shown,
}
use symm.Listing.{
  ExploreCompact, pick_thresholds, text_keys, listed_keys, explore_compact, paths_scope,
  paths_listing_from_envelope,
}

lookup_same :
    (k key : String) (thresholds : Dict Number)
    → (k == key) ≡ true
    → lookup k thresholds ≡ lookup key thresholds
lookup_same k key thresholds e = ap (λ t. lookup t thresholds) ((eq_iff k key).0 e)

-- The kept thresholds are those of the kept keys.
lookup-pick_thresholds :
    (keys : List String) (thresholds kept : Dict Number) (key : String)
    → lookup key (pick_thresholds keys thresholds kept) ≡ (
        if any (λ k. k == key) keys && is_some (lookup key thresholds)
        then lookup key thresholds
        else lookup key kept)
unfolding pick_thresholds
lookup-pick_thresholds [] thresholds kept key = refl
lookup-pick_thresholds (k ∷ keys) thresholds kept key = elim (Option-cases (lookup k thresholds)) [
  | inl missing ↦
      ground (arith, lookup-pick_thresholds keys thresholds kept key, lookup_same k key thresholds)
  | inr (value, found) ↦ ground (
    arith,
    lookup-pick_thresholds keys thresholds (insert k value kept) key,
    lookup-insert k key value kept,
    lookup_same k key thresholds,
  )
]

keep-All_of_All :
    (P : String → Type 0) (p : String → Bool) (xs : List String) → All P xs → All P (keep p xs)
keep-All_of_All P p [] h = tt
keep-All_of_All P p (x ∷ xs) (here, rest) = ground (arith, keep-All_of_All P p xs rest)

keep-IsSorted : (p : String → Bool) (xs : List String) → IsSorted xs → IsSorted (keep p xs)
keep-IsSorted p [] h = tt
keep-IsSorted p (x ∷ xs) (least, sorted) = elim (Bool-cases (p x)) [
  | inl stays ↦
      rw (stays, keep)
        (keep-All_of_All (λ y. text_le x y ≡ true) p xs least, keep-IsSorted p xs sorted)
  | inr goes ↦ rw (goes, keep) (keep-IsSorted p xs sorted)
]

guard_some :
    (listed : Bool) (found : Option Number)
    → (if listed && is_some found then found else none) ≡ (if listed then found else none)
guard_some listed none = ground arith
guard_some listed (some n) = ground arith

pub record IsPathListing (body : Fields) (compact : ExploreCompact) : Type 0 where
  pub scope : compact.scope ≡ "model/paths"
  pub sorted : IsSorted compact.policy_keys
  -- A key is there if and only if the body lists it and it is to be shown.
  pub keys : (key : String) → has_key compact.policy_keys key ≡ is_shown key body
  -- A key that is there has the number that was written for it, and none that was invented.
  pub thresholds :
      (key : String)
      → lookup key compact.thresholds ≡ (if is_shown key body then number_in key body else none)

explore_compact-IsPathListing : (body : Fields) → IsPathListing body (explore_compact body)
unfolding explore_compact filter_explore_keys lookup
explore_compact-IsPathListing body =
    let ts = stored_in body in
    let names = text_keys (listed_keys body ts) in
    let keys = filter_explore_keys (sort names) (some ts) in
    record {
      scope = refl;
      sorted =
          keep-IsSorted (λ key. explore_path_kept key (some ts)) (sort names) (sort-IsSorted names);
      keys = λ key. has_key-is_shown key body;
      thresholds = λ key.
          lookup-pick_thresholds keys ts [] key
          ∙ guard_some (has_key keys key) (lookup key ts)
          ∙ (λ i. if has_key-is_shown key body i then lookup-thresholds key body i else none);
    }

-- A listing of the path book comes from an object whose scope is `model/paths` or below it. Its keys
-- are sorted, and are those that `policy_keys` lists, or else `policyKeys`, or else the ones that
-- have a number, without the empty text and the path book keys whose number is above 0.8. A key of
-- the listing has the finite number that was last written for it, or none where none was.
pub paths_listing_sound :
    (payload : Json) (compact : ExploreCompact)
    → paths_listing_from_envelope payload ≡ some compact
    → (body : Fields) × (payload ≡ obj body)
      × (paths_scope (string_or_empty (get "scope" body)) ≡ true)
      × IsPathListing body compact
unfolding paths_listing_from_envelope
paths_listing_sound (obj body) compact e =
    elim (Bool-cases (paths_scope (string_or_empty (get "scope" body)))) [
      | inl ours ↦
          let made : explore_compact body ≡ compact = ground (arith, ours) in
          (body, refl, ours, rw (← made) (explore_compact-IsPathListing body))
      | inr foreign ↦ absurd (none-ne-some (rw (foreign, paths_listing_from_envelope) at e))
    ]
paths_listing_sound _ compact e = cc
