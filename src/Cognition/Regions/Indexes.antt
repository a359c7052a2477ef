-- ===== src/Cognition/Regions/Indexes.antt =====
-- A region index reads back as what it was made of.
use mathlib.Core.Path.{subst}
use Prim.Native.Char.{code}
use Prim.Native.String
use text.Mathlib.TextLemmas.{nil-append, cons-append, append_cancel_left, append_assoc, append-nil}
use symm.Base.{
  ◌<◌, ◌≤◌, String, Bool, true, false, not, ◌&&◌, some, List, [], ◌∷◌, ◌++◌, ◌≡◌, ◌≢◌, refl, sym,
  ap, ◌∙◌, ◌⊎◌, inl, inr, ◌==◌, All, arith, eqb, eq_iff, Bool-cases, Option-cases, false-ne-true,
  is_some,
}
use symm.Base.Prefixes.{starts_with-after_prefix}
use symm.Base.Text.{
  after_first, split_slash, prepend, non_empty, join_slash, starts_with, after_prefix-append,
}
use symm.Cognition.Symbols.{Split, is_known, heads, text_length, split_symbol, remember_symbol}
use symm.Cognition.Symbols.Longest.{IsSplit, IsResult, split_symbol_longest}
use symm.Cognition.Regions.{
  is_region, last_text, without_last, parse_leaf, parse_train_regions_index,
}

-- No slash.
abbrev pub is_plain : String → Bool
is_plain String.[] = true
is_plain (String.◌∷◌ c s) = not (eqb (code c) b'/') && is_plain s

-- A segment of a path: not empty, and with no slash.
abbrev pub IsSegment : String → Type 0
IsSegment s = (is_plain s ≡ true) × ((s == "") ≡ false)

split_slash_plain : (s : String) → is_plain s ≡ true → split_slash s ≡ s ∷ []
split_slash_plain String.[] h = refl
split_slash_plain (String.◌∷◌ c s) h = elim (Bool-cases (eqb (code c) b'/')) [
  | inl slash ↦ absurd (false-ne-true (rw slash at h))
  | inr other ↦ rw other (ap (prepend c) (split_slash_plain s (rw other at h)))
]

split_slash-slash : (t : String) → split_slash (String.◌++◌ "/" t) ≡ "" ∷ split_slash t
split_slash-slash t = ap split_slash (cons-append "/" "" t ∙ ap (String.◌∷◌ "/") (nil-append t))

split_slash-append :
    (s t : String)
    → is_plain s ≡ true
    → split_slash (String.◌++◌ s (String.◌++◌ "/" t)) ≡ s ∷ split_slash t
split_slash-append String.[] t h = rw nil-append (split_slash-slash t)
split_slash-append (String.◌∷◌ c s) t h = elim (Bool-cases (eqb (code c) b'/')) [
  | inl slash ↦ absurd (false-ne-true (rw slash at h))
  | inr other ↦ rw cons-append (rw other (ap (prepend c) (split_slash-append s t (rw other at h))))
]

split_slash-join_slash :
    (s : String) (rest : List String)
    → All IsSegment (s ∷ rest)
    → split_slash (join_slash (s ∷ rest)) ≡ s ∷ rest
split_slash-join_slash s [] (here, h) = split_slash_plain s (here.0)
split_slash-join_slash s (t ∷ rest) (here, h) =
    split_slash-append s (join_slash (t ∷ rest)) (here.0)
    ∙ ap (λ l. s ∷ l) (split_slash-join_slash t rest h)

non_empty_same : (parts : List String) → All IsSegment parts → non_empty parts ≡ parts
non_empty_same [] h = refl
non_empty_same (s ∷ parts) (here, h) = rw (here.1) (ap (λ l. s ∷ l) (non_empty_same parts h))

last_text-append : (parts : List String) (s : String) → last_text (parts ++ s ∷ []) ≡ some s
last_text-append [] s = refl
last_text-append (t ∷ []) s = refl
last_text-append (t ∷ u ∷ parts) s = last_text-append (u ∷ parts) s

without_last-append : (parts : List String) (s : String) → without_last (parts ++ s ∷ []) ≡ parts
without_last-append [] s = refl
without_last-append (t ∷ []) s = refl
without_last-append (t ∷ u ∷ parts) s = ap (λ l. t ∷ l) (without_last-append (u ∷ parts) s)

-- What holds of every known symbol holds of one.
All-is_known :
    (P : String → Type 0) (symbols : List String) (s : String)
    → All P symbols
    → is_known symbols s ≡ true
    → P s
All-is_known P [] s h known = cc
All-is_known P (t ∷ symbols) s (here, h) known = elim (Bool-cases (t == s)) [
  | inl same ↦ subst P ((eq_iff t s).0 same) here
  | inr other ↦ All-is_known P symbols s h (rw other at known)
]

-- A leaf that names a region is not the leaf of a sentence.
region_leaf : (leaf : String) → is_region leaf ≡ true → (leaf == "tokens") ≡ false
unfolding is_region
region_leaf leaf h = elim (Bool-cases (leaf == "tokens")) [
  | inr other ↦ other
  | inl same ↦ absurd (false-ne-true (ap is_region (sym ((eq_iff leaf "tokens").0 same)) ∙ h))
]

starts_with-append : (prefix rest : String) → starts_with (String.◌++◌ prefix rest) prefix ≡ true
starts_with-append prefix rest =
    starts_with-after_prefix (String.◌++◌ prefix rest) prefix
    ∙ ap is_some (after_prefix-append prefix rest)

heads-append :
    (symbol rest : String) → heads (String.◌++◌ symbol (String.◌++◌ "/" rest)) symbol ≡ true
heads-append symbol rest =
    let path : String = String.◌++◌ symbol (String.◌++◌ "/" rest) in
    let starts : starts_with path (String.◌++◌ symbol "/") ≡ true =
      ap (λ s. starts_with s (String.◌++◌ symbol "/")) (sym (append_assoc symbol "/" rest))
      ∙ starts_with-append (String.◌++◌ symbol "/") rest in
    ground (arith, starts)

-- Every other known symbol that heads the path is shorter.
abbrev pub IsBoundary : List String → String → String → Type 0
IsBoundary symbols path symbol =
    All (λ s. heads path s ≡ true → (s ≡ symbol) ⊎ (text_length s < text_length symbol)) symbols

-- A slash and more is not empty.
slash_not_empty : (rest : String) → String.◌++◌ "/" rest ≢ ""
slash_not_empty rest e =
    false-ne-true (ap (λ s. starts_with s "/") (sym e) ∙ starts_with-append "/" rest)

heads-split :
    (symbols : List String) (path : String) (split : Split)
    → IsSplit symbols path split
    → heads path split.symbol ≡ true
heads-split symbols path split good = elim good.parts [
  | inl (alone, _) ↦
      let equal : (path == split.symbol) ≡ true = (eq_iff path split.symbol).1 alone in
      ground (arith, equal)
  | inr more ↦ ap (λ p. heads p split.symbol) more ∙ heads-append split.symbol split.rest
]

longest_is :
    (symbols : List String) (path symbol : String) (split : Split)
    → is_known symbols symbol ≡ true
    → heads path symbol ≡ true
    → IsBoundary symbols path symbol
    → IsSplit symbols path split
    → split.symbol ≡ symbol
longest_is symbols path symbol split known headed boundary good =
    elim (All-is_known _ symbols split.symbol boundary good.known
      (heads-split symbols path split good)) [
        | inl same ↦ same
        | inr shorter ↦
            let longer : text_length symbol ≤ text_length split.symbol =
              All-is_known _ symbols symbol good.longest known headed in
            absurd (omega (arith, shorter, longer))
      ]

rest_is :
    (symbol rest : String) (split : Split)
    → split.symbol ≡ symbol
    → let path = String.◌++◌ symbol (String.◌++◌ "/" rest) in
      ((path ≡ split.symbol) × (split.rest ≡ ""))
        ⊎ (path ≡ String.◌++◌ split.symbol (String.◌++◌ "/" split.rest))
      → split ≡ record { symbol = symbol; rest = rest }
rest_is symbol rest split same (inl (alone, _)) = absurd (
    slash_not_empty rest (
      append_cancel_left symbol (String.◌++◌ "/" rest) "" (alone ∙ same ∙ sym (append-nil symbol))))
rest_is symbol rest split same (inr more) =
    let rests : rest ≡ split.rest = append_cancel_left "/" rest split.rest (
      append_cancel_left symbol (String.◌++◌ "/" rest) (String.◌++◌ "/" split.rest)
        (more ∙ ap (λ s. String.◌++◌ s (String.◌++◌ "/" split.rest)) same)) in
    λ i. record { symbol = same i; rest = sym rests i }

split_symbol-boundary :
    (symbols : List String) (symbol rest : String)
    → is_known symbols symbol ≡ true
    → IsBoundary symbols (String.◌++◌ symbol (String.◌++◌ "/" rest)) symbol
    → split_symbol symbols (String.◌++◌ symbol (String.◌++◌ "/" rest))
      ≡ some (record { symbol = symbol; rest = rest })
split_symbol-boundary symbols symbol rest known boundary =
    let path : String = String.◌++◌ symbol (String.◌++◌ "/" rest) in
    let headed : heads path symbol ≡ true = heads-append symbol rest in
    elim (Option-cases (split_symbol symbols path)) [
      | inl missing ↦ absurd (
          false-ne-true (
            sym (
              All-is_known (λ s. heads path s ≡ false) symbols symbol
                (subst (IsResult symbols path) missing (split_symbol_longest symbols path)) known)
            ∙ headed))
      | inr (split, found) ↦
          let good : IsSplit symbols path split =
            subst (IsResult symbols path) found (split_symbol_longest symbols path) in
          let same : split.symbol ≡ symbol =
            longest_is symbols path symbol split known headed boundary good in
          found ∙ ap some (rest_is symbol rest split same good.parts)
    ]

split_join :
    (sentence : List String) (leaf : String)
    → All IsSegment (sentence ++ leaf ∷ [])
    → split_slash (join_slash (sentence ++ leaf ∷ [])) ≡ sentence ++ leaf ∷ []
split_join [] leaf h = split_slash-join_slash leaf [] h
split_join (s ∷ sentence) leaf h = split_slash-join_slash s (sentence ++ leaf ∷ []) h

parse_leaf-region :
    (symbol : String) (sentence : List String) (leaf : String)
    → is_region leaf ≡ true
    → parse_leaf symbol (sentence ++ leaf ∷ [])
      ≡ some (record { symbol = symbol; tokens = sentence ++ leaf ∷ [] })
unfolding parse_leaf
parse_leaf-region symbol sentence leaf region =
    rw (last_text-append sentence leaf, parse_leaf)
      (rw (region_leaf leaf region, region)
        (ap (λ l. some (record { symbol = symbol; tokens = l ++ leaf ∷ [] }))
          (without_last-append sentence leaf)))

remember_known :
    (symbol : String) (symbols : List String)
    → is_known symbols symbol ≡ true
    → remember_symbol symbol symbols ≡ symbols
unfolding remember_symbol
remember_known symbol symbols known = ground (arith, known)

-- The part of an index after `train/regions/`.
abbrev pub region_tail : String → List String → String → String
region_tail symbol sentence leaf =
    String.◌++◌ symbol (String.◌++◌ "/" (join_slash (sentence ++ leaf ∷ [])))

-- A region index of a known symbol reads back. Where the symbol is one of the known ones, every other
-- known symbol that heads what follows the first `train/regions/` of the index is shorter, and what
-- follows it is the symbol, a sentence of segments that are not empty and have no slash, and a
-- region as the leaf, joined by slashes, the index parses as that symbol and those tokens, and the
-- known symbols stay what they were.
pub parse_train_regions_index-join_slash :
    (symbols : List String) (index symbol : String) (sentence : List String) (leaf : String)
    → is_known symbols symbol ≡ true
    → IsBoundary symbols (region_tail symbol sentence leaf) symbol
    → after_first "train/regions/" index ≡ some (region_tail symbol sentence leaf)
    → All IsSegment (sentence ++ leaf ∷ [])
    → is_region leaf ≡ true
    → parse_train_regions_index symbols index
      ≡ (some (record { symbol = symbol; tokens = sentence ++ leaf ∷ [] }), symbols)
unfolding parse_train_regions_index
parse_train_regions_index-join_slash symbols index symbol sentence leaf known boundary tail segments
      region =
    let parts : List String = sentence ++ leaf ∷ [] in
    rw
      (
        tail,
        split_symbol-boundary symbols symbol (join_slash parts) known boundary,
        parse_train_regions_index,
      )
      (λ i. (leaf_parses i, remember_known symbol symbols known i))
  where
    leaf_parses :
        parse_leaf symbol (non_empty (split_slash (join_slash (sentence ++ leaf ∷ []))))
        ≡ some (record { symbol = symbol; tokens = sentence ++ leaf ∷ [] })
    leaf_parses =
        ap (parse_leaf symbol) (
          ap non_empty (split_join sentence leaf segments)
          ∙ non_empty_same (sentence ++ leaf ∷ []) segments)
        ∙ parse_leaf-region symbol sentence leaf region
