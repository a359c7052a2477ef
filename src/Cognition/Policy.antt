-- ===== src/Cognition/Policy.antt =====
-- The policy keys and thresholds of cognition.ts. `decode` is `tryDecodeJsonBytes`.
use Prim.Native.Char.{Char, code}
use Prim.Native.String
use symm.Base.{
  ℕ, String, Bool, true, false, not, ◌&&◌, Option, none, some, List, [], ◌∷◌, ◌++◌, ◌==◌,
  if◌then◌else◌, or_value, or_else, Dict, lookup, insert, any, length, eqb,
}
use symm.Base.Number.{Number, number_eq, is_finite, of_ℕ, finite, pos}
use symm.Base.Json.{Json, str, num, arr, get, plain_object, items}
use symm.Base.Text.{starts_with, after_prefix, before_suffix, includes, split_slash, non_empty}
use symm.Base.Sorting.{sort}
use symm.Explore.{filter_explore_keys}
use symm.Listing.{ExploreCompact, pick_thresholds}
use symm.Book.{trie_prefix}
use symm.Cognition.{Cognition, Branch}

abbrev pub is_member : List String → String → Bool
is_member keys key = any (λ k. k == key) keys

-- `s3KeyFromIndex`
unfoldable pub s3_key_from_index : String → String → Option String
s3_key_from_index frame_prefix index = elim (after_prefix index (String.◌++◌ frame_prefix "/")) [
  | none ↦ none
  | some key ↦ if key == "" then none else some key
]

-- Can a match of `/.+\/(enter|exit)\.bin/` end its `(enter|exit)` here?
abbrev pub ends_here : String → Option String
ends_here s =
    if starts_with s "/enter.bin"
    then some "/enter"
    else if starts_with s "/exit.bin"
    then some "/exit"
    else none

-- What `.` does not match.
abbrev pub is_line_end : Char → Bool
is_line_end c = any (eqb (code c)) (b'\n' ∷ b'\r' ∷ 0x2028 ∷ 0x2029 ∷ [])

-- The longest text before `.bin` that ends in `/enter` or `/exit`, of one line; `started` is
-- whether a character stands before it.
unfoldable pub greedy_key : Bool → String → Option String
greedy_key started String.[] = none
greedy_key started (String.◌∷◌ c s) =
    let here : Option String = if started then ends_here (String.◌∷◌ c s) else none in
    let later : Option String = elim (greedy_key true s) [
      | none ↦ none
      | some key ↦ some (String.◌∷◌ c key)
    ] in
    if is_line_end c then here else or_else later here

-- The match of `/model\/current\/(.+\/(?:enter|exit))\.bin/` at its first place.
unfoldable pub current_key : String → Option String
unfolding greedy_key
current_key String.[] = none
current_key (String.◌∷◌ c s) = elim (after_prefix (String.◌∷◌ c s) "model/current/") [
  | none ↦ current_key s
  | some rest ↦ elim (greedy_key false rest) [ none ↦ current_key s | some key ↦ some key ]
]

-- The part of `policyKeyFromIndex` below its `framePrefix`.
abbrev pub bare_policy_key : String → Option String
bare_policy_key index =
    if starts_with index "model/paths" then some index else elim (current_key index) [
      | none ↦ none
      | some key ↦ some (String.◌++◌ "model/current/" (String.◌++◌ key ".bin"))
    ]

-- `policyKeyFromIndex`
unfoldable pub policy_key_from_index : String → Option String → Option String
unfolding s3_key_from_index current_key
policy_key_from_index index none = bare_policy_key index
policy_key_from_index index (some frame_prefix) =
    if frame_prefix == ""
    then bare_policy_key index
    else or_else (s3_key_from_index frame_prefix index) (bare_policy_key index)

-- The `replace` calls of `branchesFromPolicyKeys`.
abbrev pub trim_key : String → String
trim_key raw =
    let a : String = or_value (after_prefix raw "model/explore/") raw in
    let b : String = or_value (after_prefix a "policy/current/") a in
    or_value (before_suffix "/enter.bin" b) b

abbrev pub zero_count : Number
zero_count = finite (pos 0)

-- `branchesFromPolicyKeys`
unfoldable pub branches_from_policy_keys : List String → List Branch
branches_from_policy_keys [] = []
branches_from_policy_keys (raw ∷ keys) =
    let rest = branches_from_policy_keys keys in
    let branch : Branch = record {
      hash = trim_key raw;
      depth = of_ℕ (length (non_empty (split_slash (trim_key raw))));
      visits = zero_count;
      mean_edge = zero_count;
      confidence = zero_count;
      policy = "ENTER";
      observed = some false;
    } in
    if includes raw "enter.bin" then branch ∷ rest else rest

-- `thresholdFromPathBook`
unfoldable pub threshold_from_path_book : Json → Option Number
threshold_from_path_book payload = elim (plain_object payload) [
  | none ↦ none
  | some body ↦ elim (get "action" body) [
    | str action ↦ if action == "" then none else elim (get "resistance" body) [
      | num n ↦ if is_finite n then some n else none
      | _ ↦ none
    ]
    | _ ↦ none
  ]
]

-- `sameStringList`
unfoldable pub same_string_list : List String → List String → Bool
same_string_list [] [] = true
same_string_list (a ∷ left) (b ∷ right) = (a == b) && same_string_list left right
same_string_list _ _ = false

abbrev pub same_value : Option Number → Option Number → Bool
same_value none none = true
same_value (some a) (some b) = number_eq a b
same_value _ _ = false

-- `sameThresholds`
unfoldable pub same_thresholds : Dict Number → Dict Number → Bool
same_thresholds left right =
    eqb (length left) (length right)
    && not (any (λ (e : String × Number). not (same_value (some (e.1)) (lookup (e.0) right))) left)

-- `{ ...before, ...more }`
unfoldable pub spread : Dict Number → Dict Number → Dict Number
spread before [] = before
spread before ((key, n) ∷ more) = spread (insert key n before) more

-- The keys of a `Set` made of `keys` and then `more`.
unfoldable pub union : List String → List String → List String
union keys [] = keys
union keys (key ∷ more) = union (if is_member keys key then keys else keys ++ key ∷ []) more

-- `ingestExploreListPrefix`
unfoldable pub ingest_explore_list_prefix : ExploreCompact → Cognition → Cognition
unfolding spread union sort filter_explore_keys same_string_list same_thresholds
ingest_explore_list_prefix input c =
    let epoch = or_value input.epoch c.epoch in
    let thresholds = spread c.thresholds input.thresholds in
    let keys =
      filter_explore_keys (sort (union (union [] c.policy_keys) input.policy_keys))
        (some thresholds) in
    if not (input.scope == trie_prefix)
    then c
    else if (epoch == c.epoch)
        && (same_string_list c.policy_keys keys && same_thresholds c.thresholds thresholds)
    then c
    else record c { epoch = epoch; policy_keys = keys; thresholds = thresholds }

-- The keys of `ingestPolicyKeys`: the texts below the trie's prefix.
unfoldable pub trie_keys : List Json → List String
trie_keys [] = []
trie_keys (str key ∷ rest) =
    if starts_with key "model/paths/" then key ∷ trie_keys rest else trie_keys rest
trie_keys (_ ∷ rest) = trie_keys rest

-- `ingestPolicyKeys`
unfoldable pub ingest_policy_keys : Json → Option String → Cognition → Cognition × Bool
ingest_policy_keys (arr keys) epoch c = elim (trie_keys (items keys)) [
  | [] ↦ (c, false)
  | key ∷ rest ↦ (
    record c {
      epoch = if or_value epoch "" == "" then c.epoch else or_value epoch "";
      policy_keys = filter_explore_keys (key ∷ rest) (some c.thresholds);
    },
    true,
  )
]
ingest_policy_keys _ epoch c = (c, false)

-- The thresholds outside the trie.
unfoldable pub outside : Dict Number → Dict Number
outside [] = []
outside ((key, n) ∷ rest) =
    if starts_with key "model/paths/" then outside rest else (key, n) ∷ outside rest

module _ (decode : List ℕ → Option Json) where
  -- `thresholdFromExploreBytes`
  unfoldable pub threshold_from_explore_bytes : List ℕ → Option Number
  unfolding threshold_from_path_book
  threshold_from_explore_bytes bytes = elim (decode bytes) [
    | none ↦ none
    | some (num n) ↦ if is_finite n then some n else none
    | some json ↦ threshold_from_path_book json
  ]

  -- The loop of `ingestPolicyLayers`: each key once, with its threshold.
  unfoldable pub layer_keys :
      List (String × List ℕ) → List String → Dict Number → List String × Dict Number
  unfolding policy_key_from_index threshold_from_explore_bytes
  layer_keys [] keys thresholds = (keys, thresholds)
  layer_keys ((index, bytes) ∷ layers) keys thresholds = elim (policy_key_from_index index none) [
    | none ↦ layer_keys layers keys thresholds
    | some key ↦ elim (starts_with key "model/paths/" && not (is_member keys key)) [
      | false ↦ layer_keys layers keys thresholds
      | true ↦ layer_keys layers (keys ++ key ∷ []) (elim (threshold_from_explore_bytes bytes) [
        | none ↦ thresholds
        | some n ↦ insert key n thresholds
      ])
    ]
  ]

  -- `ingestPolicyLayers`; `epoch` is `String(epoch)`.
  unfoldable pub ingest_policy_layers : String → List (String × List ℕ) → Cognition → Cognition
  unfolding layer_keys filter_explore_keys pick_thresholds spread outside
  ingest_policy_layers epoch layers c =
      let (keys, thresholds) = layer_keys layers [] [] in
      elim (filter_explore_keys keys (some thresholds)) [
        | [] ↦ c
        | key ∷ kept ↦ record c {
          epoch = epoch;
          policy_keys = key ∷ kept;
          thresholds = spread (outside c.thresholds) (pick_thresholds (key ∷ kept) thresholds []);
        }
      ]
