-- ===== src/Cognition/Frames/Walks.antt =====
-- The matches through a batch of path walks.
use symm.Base.{
  String, ◌≡◌, refl, Option, some, List, [], ◌∷◌, ◌==◌, any, eq_iff, ◌⊎◌, inl, inr, Bool-cases,
  List-cases, Dict, lookup, insert, lookup-insert, ◌∙◌, ap,
}
use symm.Base.Number.{Number}
use symm.Base.Json.{Json, arr, items}
use symm.Cognition.{Cognition, Match}
use symm.Cognition.Frames.{PathWalk, walks_of, is_exit, walk_match, walk_matches, ingest_path_walks}

-- A match that follows another one of the same symbol in the walks of a tick.
pub record IsFollowing (tick : Number) (prior found : Match) : Type 0 where
  pub stored : found.stored ≡ prior.stored
  pub match_text : found.match_text ≡ prior.match_text
  pub fresh : (found ≡ prior) ⊎ (found.tick ≡ tick)

abbrev Follows : Number → Match → Option Match → Type 0
Follows tick prior o = (found : Match) × (o ≡ some found) × IsFollowing tick prior found

module _ (to_lower : String → String) where
  walk_matches-Follows :
      (tick : Number) (rows : List PathWalk) (matches : Dict Match) (symbol : String)
      (prior held : Match)
      → lookup symbol matches ≡ some held
      → IsFollowing tick prior held
      → Follows tick prior (lookup symbol (walk_matches to_lower tick rows matches))
  unfolding walk_matches walk_match
  walk_matches-Follows tick [] matches symbol prior held there h = (held, there, h)
  walk_matches-Follows tick (row ∷ rows) matches symbol prior held there h =
      let made = walk_match to_lower tick row (lookup row.symbol matches) in
      elim (Bool-cases (row.symbol == symbol)) [
        | inl same ↦
            let was : lookup row.symbol matches ≡ some held =
              ap (λ s. lookup s matches) ((eq_iff row.symbol symbol).0 same) ∙ there in
            walk_matches-Follows tick rows (insert row.symbol made matches) symbol prior made
              (lookup-insert row.symbol symbol made matches ∙ rw same refl)
              (record {
                stored = (rw was refl) ∙ h.stored;
                match_text = (rw was refl) ∙ h.match_text;
                fresh = inr refl;
              })
        | inr other ↦
            walk_matches-Follows tick rows (insert row.symbol made matches) symbol prior held
              (lookup-insert row.symbol symbol made matches ∙ rw other there) h
      ]

  -- No batch of path walks loses a match: a symbol that had one still has one, with the same stored
  -- flag and match text, and it is the same match or one of the batch's tick.
  pub ingest_path_walks-follows :
      (tick : Number) (payload : Json) (c : Cognition) (symbol : String) (prior : Match)
      → lookup symbol c.matches ≡ some prior
      → (found : Match) × (lookup symbol
            (ingest_path_walks to_lower tick payload c).cognition.matches
          ≡ some found)
        × IsFollowing tick prior found
  unfolding ingest_path_walks
  ingest_path_walks-follows tick (arr payload) c symbol prior there =
      elim (List-cases (walks_of (items payload))) [
        | inl e ↦
            rw (e, ingest_path_walks)
              (prior, there, record { stored = refl; match_text = refl; fresh = inl refl })
        | inr (row, rows, e) ↦ elim (Bool-cases (any is_exit (row ∷ rows))) [
          | inl exits ↦
              rw (e, exits, ingest_path_walks)
                (walk_matches-Follows tick (row ∷ rows) c.matches symbol prior prior there
                  (record { stored = refl; match_text = refl; fresh = inl refl }))
          | inr stays ↦
              rw (e, stays, ingest_path_walks)
                (walk_matches-Follows tick (row ∷ rows) c.matches symbol prior prior there
                  (record { stored = refl; match_text = refl; fresh = inl refl }))
        ]
      ]
  ingest_path_walks-follows tick _ c symbol prior there =
      (prior, there, record { stored = refl; match_text = refl; fresh = inl refl })
