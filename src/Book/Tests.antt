-- ===== src/Book/Tests.antt =====
-- Runs of book.ts.
use symm.Base.{String, true, false, Option, none, some, ◌≡◌, refl}
use mathlib.Core.Logic.{◌↔◌}
use symm.Base.Json.{str, Fields, field, end, get}
use symm.Book.{paper, Decision, decision_book, decision_store_key, on_book, book_name}
use symm.Book.Keys.{row_label, decision_store_key-injective, on_book_iff}

abbrev decision : Option String → Decision
decision tier = record {
  symbol = "BTC/EUR";
  action = "enter";
  reason = "";
  gate = none;
  path = none;
  tier = tier;
  resistance = none;
  virtual_flag = some false;
  confidence = none;
}

-- The flag and the missing tier both mean the virtual book.
store_keys :
    (decision_store_key (decision (some "real")) ≡ "real:BTC/EUR")
    × (decision_store_key (decision none) ≡ "virtual:BTC/EUR")
unfolding decision_store_key
store_keys = (refl, refl)

same_key :
    decision_store_key (decision (some "virtual")) ≡ decision_store_key (decision (some "shadow"))
unfolding decision_store_key
same_key = refl

decision_store_key-injective_example :
    (decision_book (decision (some "virtual")) ≡ decision_book (decision (some "shadow")))
    × ((decision (some "virtual")).symbol ≡ (decision (some "shadow")).symbol)
decision_store_key-injective_example =
    decision_store_key-injective (decision (some "virtual")) (decision (some "shadow")) same_key

abbrev row : Fields
row = field "id" (str "lot-1") (field "book" (str "") end)

on_book_iff_example : (on_book row paper ≡ true) ↔ (row_label (get "book" row) ≡ book_name paper)
on_book_iff_example = on_book_iff row paper
