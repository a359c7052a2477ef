-- ===== src/DeskRow/Life/Contract.antt =====
-- What lifecycle.ts relies on, of the functions that read a desk row.
use symm.Base.{
  String, ◌≡◌, refl, Bool, true, false, Option, none, some, ◌==◌, ap, sym, ◌∙◌, Option-cases,
  Bool-cases, inl, inr, value-eq_of_some, none-ne-some, false-ne-true,
}
use mathlib.Core.Path.{subst}
use symm.Base.Json.{Json, str, Fields, get}
use symm.Lifecycle.{Lifecycle}
use symm.Lifecycle.Reader.{DeskReader}
use symm.DeskRow.{Host}
use symm.DeskRow.Readout.{position_readout}
use symm.DeskRow.Stop.{named_text}
use symm.DeskRow.Life.{lifecycle_from_desk_open, lifecycle_from_desk_closed, open_life, closed_life}

-- A text of a row that is not empty.
named_text-str : (v : Json) {s : String} → named_text v ≡ some s → (v ≡ str s) × ((s == "") ≡ false)
named_text-str (str t) {s} e = elim (Bool-cases (t == "")) [
  | inl blank ↦ absurd (none-ne-some (rw blank at e))
  | inr named ↦
      let same : t ≡ s = value-eq_of_some (rw named at e) in
      (ap str same, ap (λ u. u == "") (sym same) ∙ named)
]
named_text-str _ e = cc

module _ (host : Host) where
  abbrev pub row_is_closed : Fields → Bool
  row_is_closed row = (position_readout host row).closed

  -- Where a round trip came from: its row's id, the row's state, and the function that made it.
  pub record IsOpenOf (row : Fields) (l : Lifecycle) : Type 0 where
    pub id : get "id" row ≡ str l.id
    pub named : (l.id == "") ≡ false
    pub running : row_is_closed row ≡ false
    pub status : l.status ≡ "holding"
    pub flags : (l.desk ≡ some true) × (l.history ≡ none)

  pub record IsClosedOf (row : Fields) (l : Lifecycle) : Type 0 where
    pub id : get "id" row ≡ str l.id
    pub named : (l.id == "") ≡ false
    pub closed : row_is_closed row ≡ true
    pub status : l.status ≡ "closed"
    pub flags : (l.desk ≡ some true) × (l.history ≡ none)

  open-IsOpenOf :
      (row : Fields) (l : Lifecycle) → lifecycle_from_desk_open host row ≡ some l → IsOpenOf row l
  unfolding lifecycle_from_desk_open open_life
  open-IsOpenOf row l e = elim (Option-cases (named_text (get "id" row))) [
    | inl missing ↦ absurd (none-ne-some (rw (missing, lifecycle_from_desk_open) at e))
    | inr (id, found) ↦ elim (Option-cases (position_readout host row).opened_at) [
      | inl missing ↦ absurd (none-ne-some (rw (found, missing, lifecycle_from_desk_open) at e))
      | inr (opened_at, opened) ↦ elim (Bool-cases (row_is_closed row)) [
        | inl closed ↦
            absurd (none-ne-some (rw (found, opened, closed, lifecycle_from_desk_open) at e))
        | inr running ↦
            let (is_text, named) = named_text-str (get "id" row) found in
            subst (IsOpenOf row)
              (value-eq_of_some (rw (found, opened, running, lifecycle_from_desk_open) at e))
              (record {
                id = is_text;
                named = named;
                running = running;
                status = refl;
                flags = (refl, refl);
              })
      ]
    ]
  ]

  closed-IsClosedOf :
      (row : Fields) (l : Lifecycle)
      → lifecycle_from_desk_closed host row ≡ some l
      → IsClosedOf row l
  unfolding lifecycle_from_desk_closed closed_life
  closed-IsClosedOf row l e = elim (Option-cases (named_text (get "id" row))) [
    | inl missing ↦ absurd (none-ne-some (rw (missing, lifecycle_from_desk_closed) at e))
    | inr (id, found) ↦ elim (Option-cases (position_readout host row).opened_at) [
      | inl missing ↦ absurd (none-ne-some (rw (found, missing, lifecycle_from_desk_closed) at e))
      | inr (opened_at, opened) ↦ elim (Option-cases (position_readout host row).closed_at) [
        | inl missing ↦
            absurd (none-ne-some (rw (found, opened, missing, lifecycle_from_desk_closed) at e))
        | inr (closed_at, dated) ↦ elim (Bool-cases (row_is_closed row)) [
          | inr running ↦
              absurd
                (none-ne-some (rw (found, opened, dated, running, lifecycle_from_desk_closed) at e))
          | inl closed ↦
              let (is_text, named) = named_text-str (get "id" row) found in
              subst (IsClosedOf row)
                (value-eq_of_some
                  (rw (found, opened, dated, closed, lifecycle_from_desk_closed) at e))
                (record {
                  id = is_text;
                  named = named;
                  closed = closed;
                  status = refl;
                  flags = (refl, refl);
                })
        ]
      ]
    ]
  ]

  -- The reader that the ingest functions of lifecycle.ts are given.
  pub desk_reader : DeskReader
  desk_reader = record {
    from_closed = lifecycle_from_desk_closed host;
    from_open = lifecycle_from_desk_open host;
    is_closed = row_is_closed;
    closed_id = λ row {l} e. (closed-IsClosedOf row l e).id;
    closed_status = λ row {l} e. (closed-IsClosedOf row l e).status;
    open_id = λ row {l} e. (open-IsOpenOf row l e).id;
    open_status = λ row {l} e. (open-IsOpenOf row l e).status;
    open_named = λ row {l} e. (open-IsOpenOf row l e).named;
    open_row = λ row {l} e. (open-IsOpenOf row l e).running;
    closed_flags = λ row {l} e. (closed-IsClosedOf row l e).flags;
    open_flags = λ row {l} e. (open-IsOpenOf row l e).flags;
  }

  -- What the two readers may make of a row.
  abbrev pub IsReading : Fields → Option Lifecycle → Option Lifecycle → Type 0
  IsReading row none none = Unit
  IsReading row (some l) none = IsOpenOf row l
  IsReading row none (some l) = IsClosedOf row l
  IsReading row (some l) (some m) = ⊥

  both_refused : (row : Fields) (l m : Lifecycle) → IsOpenOf row l → IsClosedOf row m → ⊥
  both_refused row l m running closed = false-ne-true (sym running.running ∙ closed.closed)

  -- A desk row is read as an open round trip, as a closed one or not at all, never as both. A round
  -- trip has its row's id, which is not empty; it is open where the readout is not closed, with the
  -- status `holding`, and closed where it is, with the status `closed`; it is marked as the desk's
  -- and not as history.
  pub desk_row-IsReading :
      (row : Fields)
      → IsReading row (lifecycle_from_desk_open host row) (lifecycle_from_desk_closed host row)
  desk_row-IsReading row = elim (Option-cases (lifecycle_from_desk_open host row)) [
    | inl e ↦ elim (Option-cases (lifecycle_from_desk_closed host row)) [
      | inl f ↦ rw (e, f) tt
      | inr (m, f) ↦ rw (e, f) (closed-IsClosedOf row m f)
    ]
    | inr (l, e) ↦ elim (Option-cases (lifecycle_from_desk_closed host row)) [
      | inl f ↦ rw (e, f) (open-IsOpenOf row l e)
      | inr (m, f) ↦
          absurd (both_refused row l m (open-IsOpenOf row l e) (closed-IsClosedOf row m f))
    ]
  ]
