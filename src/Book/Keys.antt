-- ===== src/Book/Keys.antt =====
-- A decision's key tells its book and its symbol.
use Prim.Native.String
use symm.Base.{String, ◌≡◌, ap, sym, ◌∙◌, ◌↔◌, Bool, true, ◌==◌, eq_iff, arith, if◌then◌else◌, ℕ}
use Prim.Native.Char.{Char, code}
use text.Mathlib.TextLemmas.{append_cancel_left, cons-append}
use symm.Base.Json.{Json, Fields, get, str}
use symm.Book.{
  Book, paper, virtual, real, book_name, Decision, decision_book, decision_store_key, on_book,
}

first_code : String → ℕ
first_code String.[] = 0
first_code (String.◌∷◌ c s) = code c

first_code-append : (c : Char) (s t : String) → first_code (String.◌++◌ (String.◌∷◌ c s) t) ≡ code c
unfolding first_code
first_code-append c s t = rw cons-append

-- The books' names begin with three letters.
initial_of : Book → ℕ
initial_of paper = b'p'
initial_of virtual = b'v'
initial_of real = b'r'

first_code-book_name :
    (book : Book) (t : String) → first_code (String.◌++◌ (book_name book) t) ≡ initial_of book
unfolding book_name initial_of
first_code-book_name paper t = first_code-append "p" "aper" t
first_code-book_name virtual t = first_code-append "v" "irtual" t
first_code-book_name real t = first_code-append "r" "eal" t

initial_of-injective : (a b : Book) → initial_of a ≡ initial_of b → a ≡ b
unfolding initial_of
initial_of-injective a b e = ground arith

-- Two decisions with one store key are of one book and one symbol.
pub decision_store_key-injective :
    (a b : Decision)
    → decision_store_key a ≡ decision_store_key b
    → (decision_book a ≡ decision_book b) × (a.symbol ≡ b.symbol)
unfolding decision_store_key
decision_store_key-injective a b e =
    let same : decision_book a ≡ decision_book b =
      initial_of-injective (decision_book a) (decision_book b) (
        sym (first_code-book_name (decision_book a) (String.◌++◌ ":" a.symbol))
        ∙ ap first_code e
        ∙ first_code-book_name (decision_book b) (String.◌++◌ ":" b.symbol)) in
    (
      same,
      append_cancel_left ":" a.symbol b.symbol (
          append_cancel_left (book_name (decision_book b)) _ _
            (ap (λ k. String.◌++◌ (book_name k) (String.◌++◌ ":" a.symbol)) (sym same) ∙ e)),
    )

-- The label that a row counts under.
abbrev pub row_label : Json → String
row_label (str label) = if label == "" then "paper" else label
row_label _ = "paper"

label_test : (label : Json) (book : Book) → Bool
label_test label book = elim label [
  | str text ↦ if text == "" then book_name book == "paper" else text == book_name book
  | _ ↦ book_name book == "paper"
]

label_test_iff :
    (label : Json) (book : Book)
    → (label_test label book ≡ true) ↔ (row_label label ≡ book_name book)
unfolding label_test
label_test_iff (str text) book = (
  λ h. ground (arith, eq_iff (book_name book) "paper", eq_iff text (book_name book)),
  λ h. ground (arith, eq_iff (book_name book) "paper", eq_iff text (book_name book)),
)
label_test_iff _ book = (
  λ h. sym ((eq_iff (book_name book) "paper").0 h),
  λ h. (eq_iff (book_name book) "paper").1 (sym h),
)

-- A row is on a book exactly when its label names it, where a missing or empty label is paper's.
pub on_book_iff :
    (row : Fields) (book : Book)
    → (on_book row book ≡ true) ↔ (row_label (get "book" row) ≡ book_name book)
unfolding on_book label_test
on_book_iff row book = label_test_iff (get "book" row) book

pub book_name-injective : (a b : Book) → book_name a ≡ book_name b → a ≡ b
book_name-injective a b e = initial_of-injective a b (
    sym (first_code-book_name a "")
    ∙ ap (λ t. first_code (String.◌++◌ t "")) e
    ∙ first_code-book_name b "")
