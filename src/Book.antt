-- ===== src/Book.antt =====
-- frontend/src/collections/book.ts, and the row's book as frontend/src/components/book-readout.ts
-- reads it: which desk ledger a decision or a lot belongs to.
pub mod Keys
mod Tests
use Prim.Native.String
use symm.Base.{
  String, Bool, true, false, not, Option, none, some, ◌==◌, if◌then◌else◌, or_value, List, [], ◌∷◌,
}
use symm.Base.Number.{Number}
use symm.Base.Json.{Json, str, Fields, get}

pub data Book : Type 0 where
  paper virtual real : Book

-- The string that a `Book` is in the source.
unfoldable pub book_name : Book → String
book_name paper = "paper"
book_name virtual = "virtual"
book_name real = "real"

-- frontend/src/collections/envelope.ts
pub record Decision : Type 0 where
  pub symbol : String
  pub action : String
  pub reason : String
  pub gate : Option String
  pub path : Option String
  pub tier : Option String
  pub resistance : Option Number
  pub virtual_flag : Option Bool
  pub confidence : Option Number

-- `triePrefix()`: one trie for every book.
abbrev pub trie_prefix : String
trie_prefix = "model/paths"

-- `bookLabel`
unfoldable pub book_label : Book → String
book_label virtual = "Virtual"
book_label real = "Real"
book_label paper = "Paper"

-- `isBook`, with the book that the text names.
unfoldable pub book_of : Option String → Option Book
book_of none = none
book_of (some text) =
    if text == "virtual"
    then some virtual
    else if text == "paper"
    then some paper
    else if text == "real"
    then some real
    else none

-- `decisionBook`: the tier if it names a book; both branches below it are virtual.
unfoldable pub decision_book : Decision → Book
unfolding book_of
decision_book decision = elim (book_of decision.tier) [
  | some book ↦ book
  | none ↦ if or_value decision.virtual_flag false then virtual else virtual
]

-- `decisionStoreKey`
unfoldable pub decision_store_key : Decision → String
unfolding decision_book book_name
decision_store_key decision =
    String.◌++◌ (book_name (decision_book decision)) (String.◌++◌ ":" decision.symbol)

-- `onBook(row, book)`: a row with no book label is a paper lot.
unfoldable pub on_book : Fields → Book → Bool
unfolding book_name
on_book row book = elim (get "book" row) [
  | str label ↦ if label == "" then book_name book == "paper" else label == book_name book
  | _ ↦ book_name book == "paper"
]
