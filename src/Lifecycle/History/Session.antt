-- ===== src/Lifecycle/History/Session.antt =====
-- A history frame and the round trips of the session.
use symm.Base.{
  String, true, false, Option, some, List, [], ◌∷◌, ◌==◌, ◌≡◌, inl, inr, refl, sym, ap, ◌∙◌, lookup,
  insert, IsMap, length, Bool-cases, Option-cases, arith, eq_iff,
}
use symm.Base.Json.{get, string_or_empty}
use symm.Listing.{Stamp, ClosedEntry}
use symm.Lifecycle.{Lifecycle}
use symm.Lifecycle.Reader.{DeskReader}
use symm.Lifecycle.Capped.{Lives, is_history, store_life, move_to_end, limit_of}
use symm.Lifecycle.Capped.Bounds.{store_life-cases}
use symm.Lifecycle.Capped.Survive.{
  evict_while-keeps, store_life-IsMap, moved-IsMap, lookup-move_to_end,
}
use symm.Lifecycle.History.{
  fill_gaps, history_life, is_outranked, ingest_history_entry, ingest_history_batch,
}

-- Storing a history round trip leaves a session's round trip with another id alone.
store_life-session :
    (life : Lifecycle) (s : Lives) (j : String) (other : Lifecycle)
    → IsMap s.lives
    → is_history life ≡ true
    → (life.id == j) ≡ false
    → lookup j s.lives ≡ some other
    → is_history other ≡ false
    → lookup j (store_life life s).0.lives ≡ some other
store_life-session life s j other h old apart there session = elim (store_life-cases life s) [
  | inl (same, e) ↦ rw e there
  | inr (changed, e) ↦ rw e (
      evict_while-keeps (length (move_to_end life s).lives) (is_history life)
        (limit_of (is_history life)) (move_to_end life s) j other (moved-IsMap life s h)
        (lookup-move_to_end life s j ∙ rw apart there) (ground (arith, old, session)))
]

-- An entry that is not outranked has another id than a session's round trip.
outranked_id :
    (stamp : Stamp) (id : String) (s : Lives) (j : String) (other : Lifecycle)
    → is_outranked stamp id s ≡ false
    → lookup j s.lives ≡ some other
    → is_history other ≡ false
    → (id == j) ≡ false
unfolding is_outranked
outranked_id stamp id s j other free there session = elim (Bool-cases (id == j)) [
  | inr apart ↦ apart
  | inl same ↦ ground (arith, eq_iff id j, same, free, there, session)
]

-- What an entry that is read stores is of the history, under the id of its row.
history_life-is_history :
    (existing : Option Lifecycle) (life : Lifecycle)
    → is_history (history_life existing life) ≡ true
unfolding history_life fill_gaps
history_life-is_history existing life = refl

history_life-id :
    (existing : Option Lifecycle) (life : Lifecycle) → (history_life existing life).id ≡ life.id
unfolding history_life fill_gaps
history_life-id existing life = refl

module _ (reader : DeskReader) where
  entry-IsMap :
      (entry : ClosedEntry) (s : Lives)
      → IsMap s.lives
      → IsMap (ingest_history_entry reader entry s).0.lives
  unfolding ingest_history_entry
  entry-IsMap entry s h =
      let id = string_or_empty (get "id" entry.row) in
      elim (Bool-cases (id == "")) [
        | inl bare ↦ rw (bare, ingest_history_entry) h
        | inr named ↦ elim (Bool-cases (is_outranked entry.stamp id s)) [
          | inl ranked ↦ rw (named, ranked, ingest_history_entry) h
          | inr free ↦ elim (Option-cases (reader.from_closed entry.row)) [
            | inl unread ↦ rw (named, free, unread, ingest_history_entry) h
            | inr (life, got) ↦
                rw (named, free, got, ingest_history_entry)
                  (store_life-IsMap (history_life (lookup id s.lives) life)
                    (record s { stamps = insert id entry.stamp s.stamps }) h)
          ]
        ]
      ]

  entry-session :
      (entry : ClosedEntry) (s : Lives) (j : String) (other : Lifecycle)
      → IsMap s.lives
      → lookup j s.lives ≡ some other
      → is_history other ≡ false
      → lookup j (ingest_history_entry reader entry s).0.lives ≡ some other
  unfolding ingest_history_entry
  entry-session entry s j other h there session =
      let id = string_or_empty (get "id" entry.row) in
      elim (Bool-cases (id == "")) [
        | inl bare ↦ rw (bare, ingest_history_entry) there
        | inr named ↦ elim (Bool-cases (is_outranked entry.stamp id s)) [
          | inl ranked ↦ rw (named, ranked, ingest_history_entry) there
          | inr free ↦ elim (Option-cases (reader.from_closed entry.row)) [
            | inl unread ↦ rw (named, free, unread, ingest_history_entry) there
            | inr (life, got) ↦
                rw (named, free, got, ingest_history_entry)
                  (store_life-session (history_life (lookup id s.lives) life)
                    (record s { stamps = insert id entry.stamp s.stamps }) j other h
                    (history_life-is_history (lookup id s.lives) life)
                    (ap (λ i. i == j) (history_life-id (lookup id s.lives) life)
                      ∙ (ap (λ i. string_or_empty i == j) (sym (reader.closed_id entry.row got))
                          ∙ outranked_id entry.stamp id s j other free there session))
                    there session)
          ]
        ]
      ]

  -- Where no id stands twice, a history frame changes no round trip of the session: what is there under an id and not marked
  -- as history is there, unchanged, after every entry of the frame was taken in.
  pub ingest_history_batch-session :
      (entries : List ClosedEntry) (s : Lives) (j : String) (other : Lifecycle)
      → IsMap s.lives
      → lookup j s.lives ≡ some other
      → is_history other ≡ false
      → lookup j (ingest_history_batch reader entries s).0.lives ≡ some other
  unfolding ingest_history_batch
  ingest_history_batch-session [] s j other h there session = there
  ingest_history_batch-session (entry ∷ entries) s j other h there session =
      ingest_history_batch-session entries (ingest_history_entry reader entry s).0 j other
        (entry-IsMap entry s h) (entry-session entry s j other h there session) session
