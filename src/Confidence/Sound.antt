-- ===== src/Confidence/Sound.antt =====
-- What a reader of the confidence may rely on, whatever the hub sends.
use symm.Base.{
  Bool, true, false, Option, none, some, List, [], ◌∷◌, ◌≡◌, refl, arith, Option-cases, inl, inr,
}
use symm.Base.Number.{Number, is_finite, finite}
use symm.Base.Json.{Json, num, Fields, get}
use symm.Book.{Book, virtual, paper, real}
use symm.Confidence.{
  BookConfidence, ConfidenceFrame, initial_frame, as_rate, as_count, as_book, fields_of,
  ingest_confidence, confidence_for, frame_of,
}

-- A rate is finite where there is one.
abbrev pub IsRate : Option Number → Type 0
IsRate none = Unit
IsRate (some n) = is_finite n ≡ true

pub record IsSoundBook (book : BookConfidence) : Type 0 where
  pub closed : is_finite book.closed ≡ true
  pub wins : is_finite book.wins ≡ true
  pub win_rate : IsRate book.win_rate
  pub edge : IsRate book.edge

-- Counts and rates are finite, and the virtual and the paper ledger are active.
pub record IsSoundFrame (frame : ConfidenceFrame) : Type 0 where
  pub books : (book : Book) → IsSoundBook (confidence_for frame book)
  pub virtual_active : (confidence_for frame virtual).active ≡ some true
  pub paper_active : (confidence_for frame paper).active ≡ some true

as_rate-IsRate : (value : Json) → IsRate (as_rate value)
unfolding as_rate
as_rate-IsRate (num (finite n)) = refl
as_rate-IsRate _ = tt

as_count_finite : (value : Json) → is_finite (as_count value) ≡ true
unfolding as_count
as_count_finite (num (finite n)) = refl
as_count_finite _ = refl

as_book-IsSoundBook : (value : Json) (fallback : Bool) → IsSoundBook (as_book value fallback)
unfolding as_book
as_book-IsSoundBook value fallback = elim (Option-cases (fields_of value)) [
  | inl missing ↦
      rw (missing, as_book) (record { closed = refl; wins = refl; win_rate = tt; edge = tt })
  | inr (row, found) ↦
      rw (found, as_book)
        (record {
          closed = as_count_finite (get "closed" row);
          wins = as_count_finite (get "wins" row);
          win_rate = as_rate-IsRate (get "win_rate" row);
          edge = as_rate-IsRate (get "edge" row);
        })
]

as_book_active : (value : Json) → (as_book value true).active ≡ some true
unfolding as_book
as_book_active value = elim (Option-cases (fields_of value)) [
  | inl missing ↦ rw (missing, as_book) refl
  | inr (row, found) ↦ rw (found, as_book) (ground arith)
]

initial_frame-IsSoundFrame : IsSoundFrame initial_frame
unfolding confidence_for
initial_frame-IsSoundFrame = record { books = books; virtual_active = refl; paper_active = refl }
  where
    books : (book : Book) → IsSoundBook (confidence_for initial_frame book)
    books virtual = record { closed = refl; wins = refl; win_rate = tt; edge = tt }
    books paper = record { closed = refl; wins = refl; win_rate = tt; edge = tt }
    books real = record { closed = refl; wins = refl; win_rate = tt; edge = tt }

frame_of_books : (row : Fields) (book : Book) → IsSoundBook (confidence_for (frame_of row) book)
unfolding frame_of confidence_for
frame_of_books row virtual = as_book-IsSoundBook (get "virtual" row) true
frame_of_books row paper = as_book-IsSoundBook (get "paper" row) true
frame_of_books row real = as_book-IsSoundBook (get "real" row) false

frame_of-IsSoundFrame : (row : Fields) → IsSoundFrame (frame_of row)
unfolding frame_of confidence_for
frame_of-IsSoundFrame row = record {
  books = frame_of_books row;
  virtual_active = as_book_active (get "virtual" row);
  paper_active = as_book_active (get "paper" row);
}

ingest_confidence-IsSoundFrame :
    (raw : Json) (frame : ConfidenceFrame)
    → IsSoundFrame frame
    → IsSoundFrame (ingest_confidence raw frame)
unfolding ingest_confidence
ingest_confidence-IsSoundFrame raw frame h = elim (Option-cases (fields_of raw)) [
  | inl missing ↦ rw (missing, ingest_confidence) h
  | inr (row, found) ↦ rw (found, ingest_confidence) (frame_of-IsSoundFrame row)
]

-- The frames that the hub has sent so far, oldest first.
unfoldable pub ingest_all : List Json → ConfidenceFrame → ConfidenceFrame
ingest_all [] frame = frame
ingest_all (raw ∷ raws) frame = ingest_all raws (ingest_confidence raw frame)

ingest_all-IsSoundFrame :
    (raws : List Json) (frame : ConfidenceFrame)
    → IsSoundFrame frame
    → IsSoundFrame (ingest_all raws frame)
unfolding ingest_all
ingest_all-IsSoundFrame [] frame h = h
ingest_all-IsSoundFrame (raw ∷ raws) frame h =
    ingest_all-IsSoundFrame raws (ingest_confidence raw frame)
      (ingest_confidence-IsSoundFrame raw frame h)

-- Whatever values the hub sends, of any type and in any order: in the frame that is shown, every
-- count is a finite number, every rate is one or missing, and the virtual and the paper ledger are
-- active.
pub ingest_all-initial_frame : (raws : List Json) → IsSoundFrame (ingest_all raws initial_frame)
ingest_all-initial_frame raws =
    ingest_all-IsSoundFrame raws initial_frame initial_frame-IsSoundFrame
