-- ===== src/Listing/Closed.antt =====
-- What a listing of closed lots holds.
use symm.Base.{String, ◌≡◌, false, Option, none, some, ◌==◌, if◌then◌else◌, List, [], ◌∷◌}
use symm.Base.Number.{ℤ}
use symm.Base.Json.{Json, str, arr, Fields, get, obj, items}
use symm.Book.{Book, book_name}
use symm.Listing.{ClosedEntry, as_bigint, stamp_book}

-- The book label of a row: its own if it is a text that is not empty, or else the ledger's.
abbrev pub label_of : Book → Json → String
label_of book (str label) = if label == "" then book_name book else label
label_of book _ = book_name book

-- The row of an entry: an object with an id that is a text and not empty, in an entry that is an
-- object; neither is an array.
abbrev pub row_of : Json → Option (Fields × Fields)
row_of (obj entry) = elim (get "row" entry) [
  | obj row ↦ elim (get "id" row) [
    | str id ↦ if id == "" then none else some (entry, row)
    | _ ↦ none
  ]
  | _ ↦ none
]
row_of _ = none

module _ (parse_bigint : String → Option ℤ) where
  -- What an entry becomes: its stamp, and its row with nothing changed but the label, which is the
  -- row's own or the ledger's.
  pub record IsMade (book : Book) (fields row : Fields) (entry : ClosedEntry) : Type 0 where
    pub epoch : entry.stamp.epoch ≡ as_bigint parse_bigint (get "epoch" fields)
    pub tick : entry.stamp.tick ≡ as_bigint parse_bigint (get "tick" fields)
    pub timestamp : entry.stamp.timestamp ≡ as_bigint parse_bigint (get "timestamp" fields)
    pub labelled : get "book" entry.row ≡ str (label_of book (get "book" row))
    pub others : (name : String) → ("book" == name) ≡ false → get name entry.row ≡ get name row

  -- How the items of an envelope become the entries of a listing, one after another.
  pub data AreRead (book : Book) : List Json → List ClosedEntry → Type 0 where
    done : AreRead book [] []
    left_out :
        {raw : Json} {raws : List Json} {entries : List ClosedEntry}
        → row_of raw ≡ none
        → AreRead book raws entries
        → AreRead book (raw ∷ raws) entries
    taken :
        {raw : Json} {raws : List Json} {entry : ClosedEntry} {entries : List ClosedEntry}
        (fields row : Fields)
        → row_of raw ≡ some (fields, row)
        → IsMade book fields row entry
        → AreRead book raws entries
        → AreRead book (raw ∷ raws) (entry ∷ entries)

  abbrev made_entry : Book → Fields → Fields → ClosedEntry
  made_entry book fields row = record {
    stamp = record {
      epoch = as_bigint parse_bigint (get "epoch" fields);
      tick = as_bigint parse_bigint (get "tick" fields);
      timestamp = as_bigint parse_bigint (get "timestamp" fields);
    };
    row = stamp_book book row;
  }

  -- The code's tests on an entry take the row that `row_of` describes.
  abbrev entry_of : Book → Option (Fields × Fields) → Option ClosedEntry
  entry_of book none = none
  entry_of book (some (fields, row)) = some (made_entry book fields row)

  -- The items that an envelope's body lists.
  abbrev pub listed_items : Json → List Json
  listed_items (arr raws) = items raws
  listed_items _ = []
