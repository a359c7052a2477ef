-- ===== src/Longtail/Tests.antt =====
-- The long tail at fixed inputs, and the witnesses of its theorems. The host is that of whole
-- numbers: sums are exact, and a difference is the first number.
use symm.Base.{◌+◌, ◌≡◌, refl, none, some, List, [], ◌∷◌}
use symm.Base.Number.{Number, finite, pos, nan, of_ℕ}
use symm.Base.Json.{Json, str, num, arr, obj, null, nil, cons, Fields, field, end}
use symm.Circular.{Circular}
use symm.DeskRow.{Host}
use symm.Longtail.{
  LongtailSample, empty_book_stats, empty_paths, empty_policy, empty_stops, fifth, half,
}
use symm.Longtail.Exits.{classify_label, policy, stop}
use symm.Longtail.History.{empty_mix}
use symm.Longtail.Window.{Recorder}

abbrev add_numbers : Number → Number → Number
add_numbers (finite (pos a)) (finite (pos b)) = finite (pos (a + b))
add_numbers _ _ = nan

abbrev host : Host
host = record {
  trim = λ s. s;
  to_lower = λ s. s;
  number_of = λ s. of_ℕ 2;
  text_of = λ v. "text";
  to_fixed = λ n. "2.00";
  number_text = λ n. "2";
  add = add_numbers;
  sub = λ a b. a;
  mul = λ a b. b;
  div = λ a b. a;
  to_iso = λ s. some s;
  parse_date = λ s. of_ℕ 0;
  now = "now";
}

classified : classify_label "policy exit" ≡ policy
unfolding classify_label
classified = refl

-- "stop" keeps a text with "profit" out of the profits.
stopped : classify_label "profit stop" ≡ stop
unfolding classify_label
stopped = refl

abbrev row : Fields
row = field "book" (str "virtual") (
    field "closed_at" (str "today")
      (field "outcome_triggers" (arr (cons (str "harvest") (cons (str "drag") nil))) end))

abbrev with_edge : Number → LongtailSample
with_edge edge = record {
  at = of_ℕ 0;
  books = record {
    of_paper = empty_book_stats;
    of_virtual = record empty_book_stats { mean_return = some edge };
    of_real = empty_book_stats;
  };
  paper_win = none;
  paper_edge = none;
  real_win = none;
  real_edge = none;
  real_armed = none;
  eligible_resistance = fifth;
  paths = empty_paths;
  policy = empty_policy;
  exits = record { of_paper = empty_mix; of_virtual = empty_mix; of_real = empty_mix };
  stops = record { of_paper = empty_stops; of_virtual = empty_stops; of_real = empty_stops };
}

abbrev rising : List LongtailSample
rising = with_edge fifth ∷ with_edge half ∷ []

abbrev recorder : Recorder
recorder = record {
  chart_window = record { buffer = []; positions = 0; start = 0; count = 0 };
  history_buffer = none;
  samples = [];
  last_sample_at = of_ℕ 0;
}

abbrev payloads : List Json
payloads =
    arr (
      cons
        (obj (field "at" (num (of_ℕ 1)) (field "paper" (obj end) (field "virtual" (obj end) end))))
        (cons null nil))
    ∷ null
    ∷ []
