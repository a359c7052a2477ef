-- ===== src/Listing/Listed.antt =====
-- What the body of a path book envelope lists, read per key: its stored number and whether the key
-- is listed and stays.
use symm.Base.{
  String, ◌≡◌, refl, ap, ◌∙◌, Bool, true, false, not, ◌&&◌, Option, none, some, ◌==◌, eq_iff, arith,
  if◌then◌else◌, List, [], ◌∷◌, Bool-cases, Option-cases, inl, inr, Dict, lookup, insert,
  lookup-insert, any, is_some, or_else, keep, map,
}
use symm.Base.Number.{Number, is_finite, number_le}
use symm.Base.Json.{Json, num, str, arr, Fields, get, items, undefined, null, bool, bigint, obj}
use symm.Base.Sorting.{sort, any-sort}
use symm.Explore.{explore_path_kept, filter_explore_keys, is_path_book_key, explore_prune_threshold}
use symm.Listing.{collect_thresholds, text_keys, listed_keys, listed_entries}

-- The number that is written for a key: that of its last entry with a finite number.
abbrev pub stored_number : String → Dict Json → Option Number
stored_number key [] = none
stored_number key ((other, num n) ∷ es) =
    or_else (stored_number key es) (if (other == key) && is_finite n then some n else none)
stored_number key ((other, _) ∷ es) = stored_number key es

-- The number for a key of an envelope's body.
abbrev pub number_in : String → Fields → Option Number
number_in key body = stored_number key (listed_entries (get "thresholds" body))

abbrev pub is_text : String → Json → Bool
is_text key (str s) = s == key
is_text key _ = false

-- Is a key listed: by `policy_keys`, or else by `policyKeys`, or else by having a number?
abbrev pub is_listed : String → Fields → Bool
is_listed key body = elim (get "policy_keys" body) [
  | arr keys ↦ any (is_text key) (items keys)
  | _ ↦ elim (get "policyKeys" body) [
    | arr keys ↦ any (is_text key) (items keys)
    | _ ↦ is_some (number_in key body)
  ]
]

-- Is a key's number above 0.8?
abbrev pub is_high : Option Number → Bool
is_high none = false
is_high (some n) = not (number_le n explore_prune_threshold)

-- Is a key shown: listed, not empty, and no path book key whose number is above 0.8?
abbrev pub is_shown : String → Fields → Bool
is_shown key body =
    is_listed key body
    && (not (key == "") && not (is_path_book_key key && is_high (number_in key body)))

abbrev pub has_key : List String → String → Bool
has_key keys key = any (λ k. k == key) keys

stored_number-finite :
    (key : String) (es : Dict Json) {n : Number}
    → stored_number key es ≡ some n
    → is_finite n ≡ true
stored_number-finite key [] e = cc
stored_number-finite key ((other, num m) ∷ es) {n} e = elim (Option-cases (stored_number key es)) [
  | inr (k, found) ↦ ground (arith, found, stored_number-finite key es found, e)
  | inl missing ↦ ground (arith, missing, e)
]
stored_number-finite key ((other, undefined) ∷ es) e = stored_number-finite key es e
stored_number-finite key ((other, null) ∷ es) e = stored_number-finite key es e
stored_number-finite key ((other, bool b) ∷ es) e = stored_number-finite key es e
stored_number-finite key ((other, bigint b) ∷ es) e = stored_number-finite key es e
stored_number-finite key ((other, str b) ∷ es) e = stored_number-finite key es e
stored_number-finite key ((other, arr b) ∷ es) e = stored_number-finite key es e
stored_number-finite key ((other, obj b) ∷ es) e = stored_number-finite key es e

lookup-collect :
    (key : String) (es : Dict Json) (acc : Dict Number)
    → lookup key (collect_thresholds es acc) ≡ or_else (stored_number key es) (lookup key acc)
unfolding collect_thresholds
lookup-collect key [] acc = refl
lookup-collect key ((other, num n) ∷ es) acc = elim (Bool-cases (is_finite n)) [
  | inl good ↦
      rw (good, collect_thresholds)
        (lookup-collect key es (insert other n acc)
          ∙ ground (arith, good, lookup-insert other key n acc))
  | inr bad ↦ rw (bad, collect_thresholds) (lookup-collect key es acc ∙ ground (arith, bad))
]
lookup-collect key ((other, _) ∷ es) acc = lookup-collect key es acc

-- The code's thresholds are the numbers of the body.
pub lookup-thresholds :
    (key : String) (body : Fields)
    → lookup key (collect_thresholds (listed_entries (get "thresholds" body)) [])
      ≡ number_in key body
unfolding lookup
lookup-thresholds key body =
    lookup-collect key (listed_entries (get "thresholds" body)) [] ∙ ground arith

has_key-text_keys :
    (key : String) (raws : List Json)
    → has_key (text_keys raws) key ≡ any (is_text key) raws && not (key == "")
unfolding text_keys
has_key-text_keys key [] = refl
has_key-text_keys key (str s ∷ raws) =
    ground (arith, has_key-text_keys key raws, eq_iff s key, eq_iff s "", eq_iff key "")
has_key-text_keys key (_ ∷ raws) = has_key-text_keys key raws

has_key-keep :
    (key : String) (p : String → Bool) (xs : List String)
    → has_key (keep p xs) key ≡ has_key xs key && p key
has_key-keep key p [] = refl
has_key-keep key p (x ∷ xs) =
    ground (arith, has_key-keep key p xs, eq_iff x key, ap p ((eq_iff x key).0 _))

is_text-names :
    (key : String) (m : Dict Number)
    → any (is_text key) (map (λ (e : String × Number). str (e.0)) m) ≡ is_some (lookup key m)
unfolding lookup
is_text-names key [] = refl
is_text-names key ((other, n) ∷ m) = ground (arith, is_text-names key m)

abbrev pub stored_in : Fields → Dict Number
stored_in body = collect_thresholds (listed_entries (get "thresholds" body)) []

names_stored :
    (key : String) (body : Fields)
    → any (is_text key) (map (λ (e : String × Number). str (e.0)) (stored_in body))
      ≡ is_some (number_in key body)
names_stored key body = is_text-names key (stored_in body) ∙ ap is_some (lookup-thresholds key body)

is_listed-second :
    (key : String) (body : Fields) (v w : Json)
    → get "policy_keys" body ≡ v
    → get "policyKeys" body ≡ w
    → any (is_text key) (listed_keys body (stored_in body)) ≡ is_listed key body
is_listed-second key body (arr keys) w e f = rw (e, listed_keys, is_listed) refl
is_listed-second key body _ (arr keys) e f = rw (e, f, listed_keys, is_listed) refl
is_listed-second key body _ _ e f = rw (e, f, listed_keys, is_listed) (names_stored key body)

is_listed-listed_keys :
    (key : String) (body : Fields)
    → any (is_text key) (listed_keys body (stored_in body)) ≡ is_listed key body
is_listed-listed_keys key body =
    is_listed-second key body (get "policy_keys" body) (get "policyKeys" body) refl refl

kept-is_high :
    (key : String) (body : Fields)
    → explore_path_kept key (some (stored_in body))
      ≡ not (is_path_book_key key && is_high (number_in key body))
unfolding explore_path_kept
kept-is_high key body = elim (Option-cases (number_in key body)) [
  | inl missing ↦
      let look : lookup key (stored_in body) ≡ none = lookup-thresholds key body ∙ missing in
      ground (arith, look, missing)
  | inr (n, found) ↦
      let look : lookup key (stored_in body) ≡ some n = lookup-thresholds key body ∙ found in
      let good : is_finite n ≡ true =
        stored_number-finite key (listed_entries (get "thresholds" body)) found in
      ground (arith, look, found, good)
]

-- Which keys the code keeps.
pub has_key-is_shown :
    (key : String) (body : Fields)
    → has_key
        (filter_explore_keys
          (sort (text_keys (listed_keys body (stored_in body))))
          (some (stored_in body)))
        key
      ≡ is_shown key body
unfolding filter_explore_keys
has_key-is_shown key body =
    let names = text_keys (listed_keys body (stored_in body)) in
    let kept = λ (k : String). explore_path_kept k (some (stored_in body)) in
    has_key-keep key kept (sort names)
    ∙ ground (
      arith,
      any-sort (λ k. k == key) names,
      has_key-text_keys key (listed_keys body (stored_in body)),
      is_listed-listed_keys key body,
      kept-is_high key body,
    )
