-- ===== src/Cognition/Symbols/Longest.antt =====
-- `splitSymbol` finds the longest symbol that a path starts with.
use Prim.Native.String
use symm.Base.{
  ◌≤◌, String, true, false, ◌&&◌, Option, none, some, List, [], ◌∷◌, ◌==◌, ◌≡◌, sym, ap, ◌∙◌, ◌⊎◌,
  inl, inr, if◌then◌else◌, All, arith, Bool-cases, Option-cases, eq_iff, ltb, false-ne-true,
  none-ne-some, is_some, or_value,
}
use mathlib.Core.Path.{subst}
use text.Mathlib.TextLemmas.{append_assoc}
use symm.Base.Text.{after_prefix}
use symm.Base.Prefixes.{starts_with-after_prefix, after_prefix-eq, after_prefix-longer}
use symm.Cognition.Symbols.{
  is_known, text_length, heads, is_longer, best_symbol, Split, rest_after, split_symbol,
}

-- A known symbol that the path starts with is no longer than the one that was found.
abbrev pub IsLongest : String → Option String → String → Type 0
IsLongest path none symbol = heads path symbol ≡ false
IsLongest path (some best) symbol = heads path symbol ≡ true → text_length symbol ≤ text_length best

-- A later choice is not shorter.
abbrev IsNoShorter : Option String → Option String → Type 0
IsNoShorter none later = Unit
IsNoShorter (some best) none = ⊥
IsNoShorter (some best) (some later) = text_length best ≤ text_length later

IsNoShorter-trans : (a b c : Option String) → IsNoShorter a b → IsNoShorter b c → IsNoShorter a c
IsNoShorter-trans none b c h k = tt
IsNoShorter-trans (some a) (some b) (some c) h k = omega arith
IsNoShorter-trans (some a) (some b) none h k = k
IsNoShorter-trans (some a) none c h k = absurd h

-- The choice after one more symbol.
abbrev chosen : String → String → Option String → Option String
chosen path symbol best = if is_longer symbol best && heads path symbol then some symbol else best

chosen-IsNoShorter :
    (path symbol : String) (best : Option String) → IsNoShorter best (chosen path symbol best)
chosen-IsNoShorter path symbol none = tt
chosen-IsNoShorter path symbol (some best) =
    elim (Bool-cases (ltb (text_length best) (text_length symbol) && heads path symbol)) [
      | inl better ↦ rw better (ground (arith, better))
      | inr kept ↦ rw kept (omega arith)
    ]

covers :
    (path symbol best : String) (later : Option String)
    → text_length symbol ≤ text_length best
    → IsNoShorter (some best) later
    → IsLongest path later symbol
covers path symbol best none short h = absurd h
covers path symbol best (some later) short h = λ headed. omega arith

not_headed :
    (path symbol : String) (later : Option String)
    → heads path symbol ≡ false
    → IsLongest path later symbol
not_headed path symbol none apart = apart
not_headed path symbol (some later) apart = λ headed. absurd (false-ne-true (sym apart ∙ headed))

chosen-IsLongest :
    (path symbol : String) (best later : Option String)
    → IsNoShorter (chosen path symbol best) later
    → IsLongest path later symbol
chosen-IsLongest path symbol none later h = elim (Bool-cases (heads path symbol)) [
  | inr apart ↦ not_headed path symbol later apart
  | inl headed ↦ covers path symbol symbol later (omega arith) (rw headed at h)
]
chosen-IsLongest path symbol (some best) later h = elim (Bool-cases (heads path symbol)) [
  | inr apart ↦ not_headed path symbol later apart
  | inl headed ↦ elim (Bool-cases (ltb (text_length best) (text_length symbol))) [
    | inl longer ↦ covers path symbol symbol later (omega arith) (rw (longer, headed) at h)
    | inr shorter ↦ covers path symbol best later (ground (arith, shorter)) (rw shorter at h)
  ]
]

best_symbol-IsNoShorter :
    (path : String) (symbols : List String) (best : Option String)
    → IsNoShorter best (best_symbol path symbols best)
unfolding best_symbol
best_symbol-IsNoShorter path [] none = tt
best_symbol-IsNoShorter path [] (some best) = omega arith
best_symbol-IsNoShorter path (symbol ∷ symbols) best =
    IsNoShorter-trans best (chosen path symbol best)
      (best_symbol path symbols (chosen path symbol best)) (chosen-IsNoShorter path symbol best)
      (best_symbol-IsNoShorter path symbols (chosen path symbol best))

best_symbol-IsLongest :
    (path : String) (symbols : List String) (best : Option String)
    → All (IsLongest path (best_symbol path symbols best)) symbols
unfolding best_symbol
best_symbol-IsLongest path [] best = tt
best_symbol-IsLongest path (symbol ∷ symbols) best =
    let next : Option String = chosen path symbol best in
    (
      chosen-IsLongest path symbol best (best_symbol path symbols next)
          (best_symbol-IsNoShorter path symbols next),
      best_symbol-IsLongest path symbols next,
    )

-- What is found is known and heads the path.
best_symbol_found :
    (path : String) (symbols : List String) (best : Option String) (found : String)
    → best_symbol path symbols best ≡ some found
    → (best ≡ some found) ⊎ ((is_known symbols found ≡ true) × (heads path found ≡ true))
unfolding best_symbol
best_symbol_found path [] best found e = inl e
best_symbol_found path (symbol ∷ symbols) best found e =
    elim (best_symbol_found path symbols (chosen path symbol best) found e) [
      | inr (known, headed) ↦ inr (ground (arith, known), headed)
      | inl last ↦ elim (Bool-cases (is_longer symbol best && heads path symbol)) [
        | inl better ↦
            let same : symbol ≡ found = ground (arith, better, last) in
            inr (
              ground (arith, eq_iff symbol found, same),
              ap (heads path) (sym same) ∙ ground (arith, better),
            )
        | inr kept ↦ inl (ground (arith, kept, last))
      ]
    ]

-- A path that a symbol heads is the symbol, or the symbol, a slash and what `splitSymbol` calls rest.
heads_parts :
    (path symbol : String)
    → heads path symbol ≡ true
    → ((path ≡ symbol) × (rest_after path symbol ≡ ""))
      ⊎ (path ≡ String.◌++◌ symbol (String.◌++◌ "/" (rest_after path symbol)))
heads_parts path symbol headed = elim (Bool-cases (path == symbol)) [
  | inl same ↦
      let equal : path ≡ symbol = (eq_iff path symbol).0 same in
      inl (
        equal,
        ap (λ s. or_value (after_prefix s (String.◌++◌ symbol "/")) "") equal
            ∙ ap (λ o. or_value o "") (after_prefix-longer symbol "/" ""),
      )
  | inr apart ↦ elim (Option-cases (after_prefix path (String.◌++◌ symbol "/"))) [
    | inl missing ↦ absurd (
        false-ne-true (
          ap is_some (sym missing)
          ∙ sym (starts_with-after_prefix path (String.◌++◌ symbol "/"))
          ∙ ground (arith, headed, apart)))
    | inr (rest, found) ↦ inr (
        after_prefix-eq path (String.◌++◌ symbol "/") rest found
        ∙ append_assoc symbol "/" rest
        ∙ ap (λ o. String.◌++◌ symbol (String.◌++◌ "/" (or_value o ""))) (sym found))
  ]
]

-- What a path was split into.
pub record IsSplit (symbols : List String) (path : String) (split : Split) : Type 0 where
  pub known : is_known symbols split.symbol ≡ true
  -- The path is the symbol alone, or the symbol, a slash and the rest.
  pub parts :
      ((path ≡ split.symbol) × (split.rest ≡ ""))
      ⊎ (path ≡ String.◌++◌ split.symbol (String.◌++◌ "/" split.rest))
  -- No known symbol that heads the path is longer.
  pub longest : All (λ s. heads path s ≡ true → text_length s ≤ text_length split.symbol) symbols

found-IsSplit :
    (symbols : List String) (path best : String)
    → best_symbol path symbols none ≡ some best
    → IsSplit symbols path (record { symbol = best; rest = rest_after path best })
found-IsSplit symbols path best found = elim (best_symbol_found path symbols none best found) [
  | inl nothing ↦ absurd (none-ne-some nothing)
  | inr (known, headed) ↦ record {
    known = known;
    parts = heads_parts path best headed;
    longest =
        subst (λ b. All (IsLongest path b) symbols) found (best_symbol-IsLongest path symbols none);
  }
]

-- What `splitSymbol` may return for a path.
abbrev pub IsResult : List String → String → Option Split → Type 0
IsResult symbols path none = All (λ s. heads path s ≡ false) symbols
IsResult symbols path (some split) = IsSplit symbols path split

-- `splitSymbol` returns null only where no known symbol heads the path. What it returns is a known
-- symbol and the rest: the path is the symbol alone, or the symbol, a slash and the rest; and no
-- known symbol that heads the path is longer.
pub split_symbol_longest :
    (symbols : List String) (path : String) → IsResult symbols path (split_symbol symbols path)
unfolding split_symbol
split_symbol_longest symbols path = elim (Option-cases (best_symbol path symbols none)) [
  | inl missing ↦
      rw (missing, split_symbol)
        (subst (λ b. All (IsLongest path b) symbols) missing
          (best_symbol-IsLongest path symbols none))
  | inr (best, found) ↦ rw (found, split_symbol) (found-IsSplit symbols path best found)
]
