-- ===== src/Cognition/Regions/Newest.antt =====
-- The newest row of a ring, sector by sector.
use symm.Base.{
  ℕ, String, Bool, false, Option, none, some, List, [], ◌∷◌, if◌then◌else◌, or_else, eqb,
}
use symm.Base.Number.{Number}
use symm.Cognition.Regions.{primary_region_index}

abbrev is_sector : ℕ → Option ℕ → Bool
is_sector n none = false
is_sector n (some k) = eqb k n

-- The last brightness that a layer has for a sector.
unfoldable pub lit : List String → List Number → ℕ → Option Number
lit [] brightness n = none
lit (token ∷ tokens) [] n = none
lit (token ∷ tokens) (v ∷ brightness) n =
    or_else (lit tokens brightness n)
      (if is_sector n (primary_region_index token) then some v else none)
