-- ===== src/Cognition/Symbols.antt =====
-- `SYMBOLS` of cognition.ts, and the texts that start with a symbol.
pub mod Longest
use Prim.Native.Char.{Char, code}
use Prim.Native.String
use symm.Base.{
  ℕ, ◌+◌, ◌*◌, ◌-◌, String, Bool, true, false, not, ◌&&◌, ◌||◌, Option, none, some, List, [], ◌∷◌,
  ◌++◌, ◌==◌, if◌then◌else◌, or_value, any, length, ltb, eqb, is_some,
}
use symm.Base.Text.{
  after_prefix, after_first, includes, starts_with, split_slash, non_empty, units, is_digit,
}

-- What `SYMBOLS` starts with.
abbrev pub initial_symbols : List String
initial_symbols =
    "BTC/USD" ∷ "ETH/USD" ∷ "SOL/USD" ∷ "XRP/USD" ∷ "ADA/USD" ∷ "DOGE/USD" ∷ "AVAX/USD" ∷ "DOT/USD"
    ∷ "LINK/USD" ∷ "LTC/USD" ∷ []

abbrev pub is_known : List String → String → Bool
is_known symbols symbol = any (λ s. s == symbol) symbols

-- `rememberSymbol`
unfoldable pub remember_symbol : String → List String → List String
remember_symbol symbol symbols =
    if includes symbol "/" && not (is_known symbols symbol) then symbols ++ symbol ∷ [] else symbols

-- `s.length`
abbrev pub text_length : String → ℕ
text_length s = length (units s)

-- Does the path start with the symbol, at a segment boundary?
abbrev pub heads : String → String → Bool
heads path symbol = path == symbol || starts_with path (String.◌++◌ symbol "/")

abbrev pub is_longer : String → Option String → Bool
is_longer symbol none = true
is_longer symbol (some best) = ltb (text_length best) (text_length symbol)

-- The loop of `splitSymbol`.
unfoldable pub best_symbol : String → List String → Option String → Option String
best_symbol path [] best = best
best_symbol path (symbol ∷ symbols) best =
    best_symbol path symbols
      (if is_longer symbol best && heads path symbol then some symbol else best)

-- A symbol, and what stands after it.
pub record Split : Type 0 where
  pub symbol : String
  pub rest : String

-- `path.slice(best.length + 1)`, of a path that the symbol heads
abbrev pub rest_after : String → String → String
rest_after path best = or_value (after_prefix path (String.◌++◌ best "/")) ""

-- `splitSymbol`
unfoldable pub split_symbol : List String → String → Option Split
unfolding best_symbol
split_symbol symbols path = elim (best_symbol path symbols none) [
  | none ↦ none
  | some best ↦ some (record { symbol = best; rest = rest_after path best })
]
