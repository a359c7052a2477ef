-- ===== src/Cognition/Guards/Schema.antt =====
-- What the type guards of cognition.ts accept, as schemas of JSON values.
use symm.Base.{
  String, ◌≡◌, refl, ◌∙◌, Bool, true, false, not, ◌&&◌, Option, none, some, List, [], ◌∷◌, ◌==◌,
  if◌then◌else◌, ◌>>=◌, is_some, all, any, arith,
}
use symm.Base.Json.{Json, undefined, null, bool, num, str, arr, obj, Fields, get, items}
use symm.Cognition.Guards.{
  as_text, as_number, as_flag, as_items, as_named, level_of, every, or_null, branch_of, gate_of,
  problem_of, tree_of, match_of,
}

mutual
  -- A kind of values; `optional` may be missing or null, and `named` is a text that is not empty.
  pub data Schema : Type 0 where
    text named number flag : Schema
    one_of : List String → Schema
    list_of : Schema → Schema
    optional : Schema → Schema
    object : Members → Schema

  pub data Members : Type 0 where
    no_more : Members
    member : String → Schema → Members → Members

mutual
  pub conforms : Schema → Json → Bool
  conforms text (str s) = true
  conforms text _ = false
  conforms named (str s) = not (s == "")
  conforms named _ = false
  conforms number (num n) = true
  conforms number _ = false
  conforms flag (bool b) = true
  conforms flag _ = false
  conforms (one_of words) (str s) = any (λ w. s == w) words
  conforms (one_of words) _ = false
  conforms (list_of schema) (arr vs) = all (conforms schema) (items vs)
  conforms (list_of schema) _ = false
  conforms (optional schema) undefined = true
  conforms (optional schema) null = true
  conforms (optional schema) v = conforms schema v
  conforms (object members) (obj fields) = members_conform members fields
  conforms (object members) _ = false

  pub members_conform : Members → Fields → Bool
  members_conform no_more fields = true
  members_conform (member name schema members) fields =
      conforms schema (get name fields) && members_conform members fields

abbrev pub branch_schema : Schema
branch_schema = object (
    member "hash" text (
      member "depth" number (
        member "visits" number
          (member "meanEdge" number (member "confidence" number (member "policy" text no_more))))))

abbrev pub gate_schema : Schema
gate_schema = object (
    member "tickEpoch" text (
      member "enabled" flag
        (member "surpriseZ" number (member "warmup" text (member "learningRate" number no_more)))))

abbrev pub problem_schema : Schema
problem_schema = object (
    member "level" (one_of ("error" ∷ "warning" ∷ []))
      (member "reason" named (member "fix" named no_more)))

abbrev pub tree_schema : Schema
tree_schema = object (
    member "epoch" text (
      member "paths" number (
        member "trading" flag (
          member "gate" (optional gate_schema) (
            member "keys" (list_of text) (
              member "branches" (list_of branch_schema)
                (member "problem" (optional problem_schema) no_more)))))))

abbrev pub match_schema : Schema
match_schema = object (
    member "symbol" named (
      member "tick" number (
        member "tokens" (list_of text) (
          member "stored" flag
            (member "match" text (member "depth" number (member "action" text no_more)))))))

-- A chain of guards passes if its first guard does and the rest of it.
is_some-bind :
    {A B : Type 0} (o : Option A) (f : A → Option B) (first rest : Bool)
    → is_some o ≡ first
    → ((a : A) → is_some (f a) ≡ rest)
    → is_some (o >>= f) ≡ first && rest
is_some-bind none f first rest e h = ground (arith, e)
is_some-bind (some a) f first rest e h = h a ∙ ground (arith, e)

text_passes : (v : Json) → is_some (as_text v) ≡ conforms text v
unfolding conforms
text_passes (str s) = refl
text_passes _ = refl

number_passes : (v : Json) → is_some (as_number v) ≡ conforms number v
unfolding conforms
number_passes (num n) = refl
number_passes _ = refl

flag_passes : (v : Json) → is_some (as_flag v) ≡ conforms flag v
unfolding conforms
flag_passes (bool b) = refl
flag_passes _ = refl

named_passes : (v : Json) → is_some (as_named v) ≡ conforms named v
unfolding conforms
named_passes (str s) = ground arith
named_passes _ = refl

level_passes : (v : Json) → is_some (level_of v) ≡ conforms (one_of ("error" ∷ "warning" ∷ [])) v
unfolding conforms
level_passes (str s) = ground arith
level_passes _ = refl

is_some-map :
    {A B : Type 0} (o : Option A) (g : A → B) → is_some (o >>= λ a. some (g a)) ≡ is_some o
is_some-map none g = refl
is_some-map (some a) g = refl

both_if : (a b : Bool) → a && b ≡ (if a then b else false)
both_if true b = refl
both_if false b = refl

every_passes :
    {A : Type 0} (guard : Json → Option A) (schema : Schema)
    → ((v : Json) → is_some (guard v) ≡ conforms schema v)
    → (vs : List Json) → is_some (every guard vs) ≡ all (conforms schema) vs
every_passes guard schema h [] = refl
every_passes guard schema h (v ∷ vs) =
    is_some-bind (guard v) _ _ (all (conforms schema) vs) (h v)
      (λ a. is_some-map (every guard vs) (λ l. a ∷ l) ∙ every_passes guard schema h vs)
    ∙ both_if (conforms schema v) (all (conforms schema) vs)

list_passes :
    {A B : Type 0} (guard : Json → Option A) (schema : Schema)
    → ((v : Json) → is_some (guard v) ≡ conforms schema v)
    → (v : Json) (f : List A → Option B) (rest : Bool) → ((l : List A) → is_some (f l) ≡ rest)
    → is_some (do vs ← as_items v; l ← every guard vs; f l) ≡ conforms (list_of schema) v && rest
unfolding conforms
list_passes guard schema h (arr vs) f rest k =
    is_some-bind (every guard (items vs)) f (all (conforms schema) (items vs)) rest
      (every_passes guard schema h (items vs)) k
list_passes guard schema h _ f rest k = refl

branch_passes : (v : Json) → is_some (branch_of v) ≡ conforms branch_schema v
unfolding branch_of conforms members_conform
branch_passes (obj b) =
    is_some-bind (as_text (get "hash" b)) _ _ _ (text_passes (get "hash" b)) (λ hash.
      is_some-bind (as_number (get "depth" b)) _ _ _ (number_passes (get "depth" b)) (λ depth.
        is_some-bind (as_number (get "visits" b)) _ _ _ (number_passes (get "visits" b)) (λ visits.
          is_some-bind (as_number (get "meanEdge" b)) _ _ _ (number_passes (get "meanEdge" b))
            (λ edge.
              is_some-bind (as_number (get "confidence" b)) _ _ _
                (number_passes (get "confidence" b))
                (λ confidence.
                  is_some-bind (as_text (get "policy" b)) _ _ _ (text_passes (get "policy" b))
                    (λ policy. refl))))))
branch_passes _ = refl

gate_fields : (g : Fields) → is_some (gate_of (obj g)) ≡ conforms gate_schema (obj g)
unfolding gate_of conforms members_conform
gate_fields g =
    is_some-bind (as_text (get "tickEpoch" g)) _ _ _ (text_passes (get "tickEpoch" g)) (λ epoch.
      is_some-bind (as_flag (get "enabled" g)) _ _ _ (flag_passes (get "enabled" g)) (λ enabled.
        is_some-bind (as_number (get "surpriseZ" g)) _ _ _ (number_passes (get "surpriseZ" g)) (λ z.
          is_some-bind (as_text (get "warmup" g)) _ _ _ (text_passes (get "warmup" g)) (λ warmup.
            is_some-bind (as_number (get "learningRate" g)) _ _ _
              (number_passes (get "learningRate" g)) (λ rate. refl)))))

gate_passes : (v : Json) → is_some (gate_of (or_null v)) ≡ conforms (optional gate_schema) v
unfolding gate_of conforms
gate_passes undefined = refl
gate_passes null = refl
gate_passes (obj g) = gate_fields g
gate_passes _ = refl

problem_fields : (p : Fields) → is_some (problem_of (obj p)) ≡ conforms problem_schema (obj p)
unfolding problem_of conforms members_conform
problem_fields p =
    is_some-bind (level_of (get "level" p)) _ _ _ (level_passes (get "level" p)) (λ level.
      is_some-bind (as_named (get "reason" p)) _ _ _ (named_passes (get "reason" p)) (λ reason.
        is_some-bind (as_named (get "fix" p)) _ _ _ (named_passes (get "fix" p)) (λ fix. refl)))

problem_passes :
    (v : Json) → is_some (problem_of (or_null v)) ≡ conforms (optional problem_schema) v
unfolding problem_of conforms
problem_passes undefined = refl
problem_passes null = refl
problem_passes (obj p) = problem_fields p
problem_passes _ = refl

-- `isTree` accepts the values of its schema.
pub tree_passes : (v : Json) → is_some (tree_of v) ≡ conforms tree_schema v
unfolding tree_of conforms members_conform
tree_passes (obj t) =
    is_some-bind (as_text (get "epoch" t)) _ _ _ (text_passes (get "epoch" t)) (λ epoch.
      is_some-bind (as_number (get "paths" t)) _ _ _ (number_passes (get "paths" t)) (λ paths.
        is_some-bind (as_flag (get "trading" t)) _ _ _ (flag_passes (get "trading" t)) (λ trading.
          is_some-bind (gate_of (or_null (get "gate" t))) _ _ _ (gate_passes (get "gate" t))
            (λ gate. list_passes as_text text text_passes (get "keys" t) _ _ (λ keys.
              list_passes branch_of branch_schema branch_passes (get "branches" t) _ _ (λ branches.
                is_some-bind (problem_of (or_null (get "problem" t))) _ _ _
                  (problem_passes (get "problem" t)) (λ problem. refl)))))))
tree_passes _ = refl

-- `isMatch` accepts the values of its schema.
pub match_passes : (v : Json) → is_some (match_of v) ≡ conforms match_schema v
unfolding match_of conforms members_conform
match_passes (obj m) =
    is_some-bind (as_named (get "symbol" m)) _ _ _ (named_passes (get "symbol" m)) (λ symbol.
      is_some-bind (as_number (get "tick" m)) _ _ _ (number_passes (get "tick" m)) (λ tick.
        list_passes as_text text text_passes (get "tokens" m) _ _ (λ tokens.
          is_some-bind (as_flag (get "stored" m)) _ _ _ (flag_passes (get "stored" m)) (λ stored.
            is_some-bind (as_text (get "match" m)) _ _ _ (text_passes (get "match" m)) (λ found.
              is_some-bind (as_number (get "depth" m)) _ _ _ (number_passes (get "depth" m))
                (λ depth.
                  is_some-bind (as_text (get "action" m)) _ _ _ (text_passes (get "action" m))
                    (λ action. refl)))))))
match_passes _ = refl
