-- ===== src/Cognition/Frames/Errors.antt =====
-- Which frames are taken, and that the others leave everything as it is.
use mathlib.Core.Path.{subst}
use symm.Base.{
  String, ◌⊎◌, ◌≡◌, refl, sym, ◌∙◌, Bool, true, false, Option, List, [], ◌∷◌, ◌==◌, inl, inr,
  false-ne-true, Bool-cases, Option-cases, List-cases, ap, not, any, is_some, eq_iff, arith,
}
use symm.Base.Json.{Json, str, obj, arr, items, get}
use symm.Base.Text.{starts_with}
use symm.Cognition.{Cognition}
use symm.Cognition.Guards.{tree_of, match_of, as_text}
use symm.Cognition.Guards.Schema.{conforms, tree_schema, match_schema, tree_passes, match_passes}
use symm.Cognition.Policy.{ingest_policy_keys, trie_keys}
use symm.Cognition.Frames.{Handled, ingest_cognition_frame, ingest_tree, ingest_keys, ignored}

abbrev is_trie_text : Json → Bool
is_trie_text (str key) = starts_with key "model/paths/"
is_trie_text _ = false

abbrev has_trie_text : Json → Bool
has_trie_text (arr list) = any is_trie_text (items list)
has_trie_text _ = false

-- An object whose `keys` are an array, with a text below the trie among its items.
abbrev pub lists_trie_key : Json → Bool
lists_trie_key (obj body) = has_trie_text (get "keys" body)
lists_trie_key _ = false

-- What a payload of a role has to be: of the role `keys` an object that lists a key of the trie, of
-- the roles `tree` and `match` a value of the schema of that name; and there is no other role.
abbrev pub IsWellFormed : String → Json → Type 0
IsWellFormed role payload =
    ((role ≡ "keys") × (lists_trie_key payload ≡ true))
    ⊎ (((role ≡ "tree") × (conforms tree_schema payload ≡ true))
        ⊎ ((role ≡ "match") × (conforms match_schema payload ≡ true)))

abbrev is_empty : List String → Bool
is_empty [] = true
is_empty (key ∷ keys) = false

trie_keys-is_empty : (vs : List Json) → is_empty (trie_keys vs) ≡ not (any is_trie_text vs)
unfolding trie_keys
trie_keys-is_empty [] = refl
trie_keys-is_empty (str key ∷ vs) = ground (arith, trie_keys-is_empty vs)
trie_keys-is_empty (_ ∷ vs) = trie_keys-is_empty vs

true-ne-false : true ≡ false → ⊥
true-ne-false h = cc

list_refused :
    (keys : Json) (epoch : Option String) (c : Cognition)
    → has_trie_text keys ≡ false
    → ingest_policy_keys keys epoch c ≡ (c, false)
unfolding ingest_policy_keys
list_refused (arr list) epoch c h = elim (List-cases (trie_keys (items list))) [
  | inl e ↦ rw (e, ingest_policy_keys) refl
  | inr (key, rest, e) ↦
      absurd (false-ne-true (ap is_empty (sym e) ∙ trie_keys-is_empty (items list) ∙ ap not h))
]
list_refused _ epoch c h = refl

list_taken :
    (keys : Json) (epoch : Option String) (c : Cognition)
    → has_trie_text keys ≡ true
    → (ingest_policy_keys keys epoch c).1 ≡ true
unfolding ingest_policy_keys
list_taken (arr list) epoch c h = elim (List-cases (trie_keys (items list))) [
  | inl e ↦
      absurd (true-ne-false (ap is_empty (sym e) ∙ trie_keys-is_empty (items list) ∙ ap not h))
  | inr (key, rest, e) ↦ rw (e, ingest_policy_keys) refl
]
list_taken _ epoch c h = cc

keys_refused :
    (payload : Json) (c : Cognition)
    → lists_trie_key payload ≡ false
    → ingest_keys payload c ≡ ignored c
unfolding ingest_keys
keys_refused (obj body) c h =
    ap (λ next. record { cognition = next.0; commands = []; ok = next.1 })
      (list_refused (get "keys" body) (as_text (get "epoch" body)) c h)
keys_refused _ c h = refl

keys_taken :
    (payload : Json) (c : Cognition)
    → lists_trie_key payload ≡ true
    → (ingest_keys payload c).ok ≡ true
unfolding ingest_keys
keys_taken (obj body) c h = list_taken (get "keys" body) (as_text (get "epoch" body)) c h
keys_taken _ c h = cc

-- How a frame ends: a payload that is well formed is taken, any other changes nothing, sends
-- nothing and is refused.
abbrev pub IsAnswer : String → Json → Cognition → Handled → Type 0
IsAnswer role payload c out =
    (IsWellFormed role payload × (out.ok ≡ true))
    ⊎ (¬ IsWellFormed role payload × (out ≡ record { cognition = c; commands = []; ok = false }))

other_role : {role : String} (word : String) → (role == word) ≡ false → role ≡ word → ⊥
other_role {role} word h e = false-ne-true (sym h ∙ (eq_iff role word).1 e)

tree-IsAnswer :
    (payload : Json) (c : Cognition)
    → IsAnswer "tree" payload c (ingest_cognition_frame "tree" payload c)
unfolding ingest_cognition_frame ingest_tree
tree-IsAnswer payload c = elim (Option-cases (tree_of payload)) [
  | inl bad ↦ inr (
    (λ h. elim h [
      | inl (e, _) ↦ other_role "keys" refl e
      | inr (inl (_, good)) ↦ false-ne-true (ap is_some (sym bad) ∙ tree_passes payload ∙ good)
      | inr (inr (e, _)) ↦ other_role "match" refl e
    ]),
    rw (bad, ingest_cognition_frame) refl,
  )
  | inr (tree, good) ↦ inl (
    inr (inl (refl, sym (tree_passes payload) ∙ ap is_some good)),
    rw (good, ingest_cognition_frame) refl,
  )
]

match-IsAnswer :
    (payload : Json) (c : Cognition)
    → IsAnswer "match" payload c (ingest_cognition_frame "match" payload c)
unfolding ingest_cognition_frame
match-IsAnswer payload c = elim (Option-cases (match_of payload)) [
  | inl bad ↦ inr (
    (λ h. elim h [
      | inl (e, _) ↦ other_role "keys" refl e
      | inr (inl (e, _)) ↦ other_role "tree" refl e
      | inr (inr (_, good)) ↦ false-ne-true (ap is_some (sym bad) ∙ match_passes payload ∙ good)
    ]),
    rw (bad, ingest_cognition_frame) refl,
  )
  | inr (found, good) ↦ inl (
    inr (inr (refl, sym (match_passes payload) ∙ ap is_some good)),
    rw (good, ingest_cognition_frame) refl,
  )
]

keys-IsAnswer :
    (payload : Json) (c : Cognition)
    → IsAnswer "keys" payload c (ingest_cognition_frame "keys" payload c)
unfolding ingest_cognition_frame
keys-IsAnswer payload c = elim (Bool-cases (lists_trie_key payload)) [
  | inl good ↦ inl (inl (refl, good), keys_taken payload c good)
  | inr bad ↦ inr (
    (λ h. elim h [
      | inl (_, good) ↦ false-ne-true (sym bad ∙ good)
      | inr (inl (e, _)) ↦ other_role "tree" refl e
      | inr (inr (e, _)) ↦ other_role "match" refl e
    ]),
    keys_refused payload c bad,
  )
]

-- A frame is taken exactly when its payload is well formed for its role; any other frame changes
-- nothing, sends nothing and is refused. Of the role `keys` an object is well formed whose `keys` are
-- an array with a text that begins with `model/paths/`. Of the roles `tree` and `match` a value of
-- the schema of that name is: an object with a value of the right kind in each field that the schema
-- lists, the symbol of a match and the reason and fix of a problem not empty. Of another role
-- nothing is.
pub ingest_cognition_frame-malformed :
    (role : String) (payload : Json) (c : Cognition)
    → IsAnswer role payload c (ingest_cognition_frame role payload c)
unfolding ingest_cognition_frame
ingest_cognition_frame-malformed role payload c = elim (Bool-cases (role == "keys")) [
  | inl keys ↦
      subst (λ r. IsAnswer r payload c (ingest_cognition_frame r payload c))
        (sym ((eq_iff role "keys").0 keys)) (keys-IsAnswer payload c)
  | inr n1 ↦ elim (Bool-cases (role == "tree")) [
    | inl tree ↦
        subst (λ r. IsAnswer r payload c (ingest_cognition_frame r payload c))
          (sym ((eq_iff role "tree").0 tree)) (tree-IsAnswer payload c)
    | inr n2 ↦ elim (Bool-cases (role == "match")) [
      | inl found ↦
          subst (λ r. IsAnswer r payload c (ingest_cognition_frame r payload c))
            (sym ((eq_iff role "match").0 found)) (match-IsAnswer payload c)
      | inr n3 ↦ inr (
        (λ h. elim h [
          | inl (e, _) ↦ other_role "keys" n1 e
          | inr (inl (e, _)) ↦ other_role "tree" n2 e
          | inr (inr (e, _)) ↦ other_role "match" n3 e
        ]),
        rw (n1, n2, n3, ingest_cognition_frame) refl,
      )
    ]
  ]
]
