-- ===== src/Lifecycle/Desk/Mirror.antt =====
-- After a desk snapshot, the desk's open round trips are the ones of its open rows.
use symm.Base.{
  ℕ, zero, suc, ◌≡◌, sym, ap, ◌∙◌, String, Bool, true, false, not, ◌||◌, Option, some, List, [],
  ◌∷◌, ◌==◌, or_else, Dict, lookup, insert, delete, any, All, All-imp, arith, Bool-cases,
  Option-cases, inl, inr, eq_iff, ltb, length,
}
use mathlib.Core.Path.{subst}
use symm.Base.Json.{Fields, get, string_or_empty}
use symm.Lifecycle.{Lifecycle}
use symm.Lifecycle.Reader.{DeskReader}
use symm.Lifecycle.History.{fill_gaps}
use symm.Lifecycle.Capped.{
  Lives, is_history, store_life, move_to_end, evict_while, count_of, first_over, limit_of,
}
use symm.Lifecycle.Capped.Bounds.{store_life-cases}
use symm.Lifecycle.Desk.{
  is_closed_life, is_desk, sweep, desk_life, is_settled, open_ids, ingest_desk_row,
  ingest_desk_rows, ingest_desk_closed_lots,
}

abbrev pub is_listed : List String → String → Bool
is_listed ids id = any (λ k. k == id) ids

-- A round trip of the desk that is not closed has its id among these.
abbrev pub IsOpenRow : List String → String × Lifecycle → Type 0
IsOpenRow ids (id, life) =
    is_desk life ≡ true → is_closed_life life ≡ false → is_listed ids id ≡ true

abbrev pub AreOpenRows : List String → Dict Lifecycle → Type 0
AreOpenRows ids = All (IsOpenRow ids)

delete-AreOpenRows :
    (ids : List String) (id : String) (m : Dict Lifecycle)
    → AreOpenRows ids m
    → AreOpenRows ids (delete id m)
unfolding delete
delete-AreOpenRows ids id [] h = tt
delete-AreOpenRows ids id ((other, life) ∷ m) (here, rest) = elim (Bool-cases (other == id)) [
  | inl hit ↦ rw hit (delete-AreOpenRows ids id m rest)
  | inr miss ↦ rw miss (here, delete-AreOpenRows ids id m rest)
]

insert-AreOpenRows :
    (ids : List String) (id : String) (life : Lifecycle) (m : Dict Lifecycle)
    → IsOpenRow ids (id, life)
    → AreOpenRows ids m
    → AreOpenRows ids (insert id life m)
unfolding insert
insert-AreOpenRows ids id life [] p h = (p, tt)
insert-AreOpenRows ids id life ((other, held) ∷ m) p (here, rest) =
    elim (Bool-cases (other == id)) [
      | inl hit ↦
          rw hit (subst (λ k. IsOpenRow ids (k, life)) (sym ((eq_iff other id).0 hit)) p, rest)
      | inr miss ↦ rw miss (here, insert-AreOpenRows ids id life m p rest)
    ]

evict_while-AreOpenRows :
    (ids : List String) (fuel : ℕ) (history : Bool) (limit : ℕ) (s : Lives)
    → AreOpenRows ids s.lives
    → AreOpenRows ids (evict_while fuel history limit s).lives
unfolding evict_while
evict_while-AreOpenRows ids zero history limit s h = h
evict_while-AreOpenRows ids (suc fuel) history limit s h =
    elim (Bool-cases (ltb limit (count_of history s.lives))) [
      | inr fits ↦ rw (fits, evict_while) h
      | inl over ↦ elim (Option-cases (first_over history s.lives)) [
        | inl stuck ↦ rw (over, stuck, evict_while) h
        | inr (id, found) ↦
            rw (over, found, evict_while)
              (evict_while-AreOpenRows ids fuel history limit
                (record { lives = delete id s.lives; stamps = delete id s.stamps })
                (delete-AreOpenRows ids id s.lives h))
      ]
    ]

store_life-AreOpenRows :
    (ids : List String) (life : Lifecycle) (s : Lives)
    → IsOpenRow ids (life.id, life)
    → AreOpenRows ids s.lives
    → AreOpenRows ids (store_life life s).0.lives
unfolding move_to_end
store_life-AreOpenRows ids life s p h = elim (store_life-cases life s) [
  | inl (same, e) ↦ rw e h
  | inr (changed, e) ↦ rw e (
      evict_while-AreOpenRows ids (length (move_to_end life s).lives) (is_history life)
        (limit_of (is_history life)) (move_to_end life s)
        (insert-AreOpenRows ids life.id life (delete life.id s.lives) p
          (delete-AreOpenRows ids life.id s.lives h)))
]

sweep-AreOpenRows : (ids : List String) (m : Dict Lifecycle) → AreOpenRows ids (sweep ids m).0
unfolding sweep
sweep-AreOpenRows ids [] = tt
sweep-AreOpenRows ids ((id, life) ∷ m) =
    let kept : AreOpenRows ids (sweep ids m).0 = sweep-AreOpenRows ids m in
    elim (Bool-cases (not (is_desk life) || is_closed_life life)) [
      | inl spared ↦
          rw (spared, sweep) ((λ desk running. ground (arith, spared, desk, running)), kept)
      | inr ours ↦ elim (Bool-cases (is_listed ids id)) [
        | inl listed ↦ rw (ours, listed, sweep) ((λ desk running. listed), kept)
        | inr gone ↦ rw (ours, gone, sweep) kept
      ]
    ]

module _ (reader : DeskReader) where
  -- The id of an open row that is read is among the open ids.
  open_ids-row :
      (rows : List Fields) (row : Fields) (life : Lifecycle)
      → reader.from_open row ≡ some life
      → is_listed (open_ids reader (row ∷ rows)) life.id ≡ true
  unfolding open_ids
  open_ids-row rows row life got =
      let id : string_or_empty (get "id" row) ≡ life.id =
        ap string_or_empty (reader.open_id row got) in
      let named : (string_or_empty (get "id" row) == "") ≡ false =
        ap (λ k. k == "") id ∙ reader.open_named row got in
      rw (named, reader.open_row row got, open_ids)
        (ground (arith, id, eq_iff (string_or_empty (get "id" row)) life.id))

  -- What one row stores is open only if the row is.
  desk_life-IsOpenRow :
      (ids : List String) (row : Fields) (existing : Option Lifecycle) (life : Lifecycle)
      → or_else (reader.from_closed row) (reader.from_open row) ≡ some life
      → ((l : Lifecycle) → reader.from_open row ≡ some l → is_listed ids l.id ≡ true)
      → IsOpenRow ids ((desk_life existing life).id, desk_life existing life)
  unfolding desk_life fill_gaps
  desk_life-IsOpenRow ids row existing life got listed desk running =
      elim (Option-cases (reader.from_closed row)) [
        | inr (closed, found) ↦
            let mine : reader.from_closed row ≡ some life =
              found ∙ (sym (ap (λ c. or_else c (reader.from_open row)) found) ∙ got) in
            ground (arith, running, reader.closed_status row mine, eq_iff life.status "closed")
        | inl missing ↦ listed life (ap (λ c. or_else c (reader.from_open row)) (sym missing) ∙ got)
      ]

  -- The rows that are open are listed.
  abbrev AreListedRows : List String → List Fields → Type 0
  AreListedRows ids =
      All (λ row. (l : Lifecycle) → reader.from_open row ≡ some l → is_listed ids l.id ≡ true)

  open_ids-later :
      (row : Fields) (rows : List Fields) (id : String)
      → is_listed (open_ids reader rows) id ≡ true
      → is_listed (open_ids reader (row ∷ rows)) id ≡ true
  unfolding open_ids
  open_ids-later row rows id h = ground (arith, h)

  open_ids-AreListedRows : (rows : List Fields) → AreListedRows (open_ids reader rows) rows
  open_ids-AreListedRows [] = tt
  open_ids-AreListedRows (row ∷ rows) = (
    λ l got. open_ids-row rows row l got,
    All-imp _ _ rows (λ r later l got. open_ids-later row rows l.id (later l got))
        (open_ids-AreListedRows rows),
  )

  ingest_desk_row-AreOpenRows :
      (ids : List String) (row : Fields) (s : Lives)
      → ((l : Lifecycle) → reader.from_open row ≡ some l → is_listed ids l.id ≡ true)
      → AreOpenRows ids s.lives
      → AreOpenRows ids (ingest_desk_row reader row s).0.lives
  unfolding ingest_desk_row
  ingest_desk_row-AreOpenRows ids row s listed h =
      elim (Option-cases (or_else (reader.from_closed row) (reader.from_open row))) [
        | inl unread ↦ rw (unread, ingest_desk_row) h
        | inr (life, got) ↦ elim (Bool-cases (is_settled (lookup life.id s.lives) life)) [
          | inl settled ↦ rw (got, settled, ingest_desk_row) h
          | inr free ↦
              rw (got, free, ingest_desk_row)
                (store_life-AreOpenRows ids (desk_life (lookup life.id s.lives) life) s
                  (desk_life-IsOpenRow ids row (lookup life.id s.lives) life got listed) h)
        ]
      ]

  ingest_desk_rows-AreOpenRows :
      (ids : List String) (rows : List Fields) (s : Lives)
      → AreListedRows ids rows
      → AreOpenRows ids s.lives
      → AreOpenRows ids (ingest_desk_rows reader rows s).0.lives
  unfolding ingest_desk_rows
  ingest_desk_rows-AreOpenRows ids [] s listed h = h
  ingest_desk_rows-AreOpenRows ids (row ∷ rows) s (here, later) h =
      ingest_desk_rows-AreOpenRows ids rows (ingest_desk_row reader row s).0 later
        (ingest_desk_row-AreOpenRows ids row s here h)

  -- The store mirrors the desk: after a snapshot every round trip of the desk that is not closed has
  -- the id of one of the snapshot's open rows, whatever the store held before it.
  pub ingest_desk_closed_lots-AreOpenRows :
      (rows : List Fields) (s : Lives)
      → AreOpenRows (open_ids reader rows) (ingest_desk_closed_lots reader rows s).0.lives
  unfolding ingest_desk_closed_lots
  ingest_desk_closed_lots-AreOpenRows rows s =
      let ids : List String = open_ids reader rows in
      ingest_desk_rows-AreOpenRows ids rows (record s { lives = (sweep ids s.lives).0 })
        (open_ids-AreListedRows rows) (sweep-AreOpenRows ids s.lives)
