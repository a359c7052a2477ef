-- ===== src/Circular/Tests.antt =====
-- Runs of circular.ts.
use symm.Base.{ℕ, none, some, List, [], ◌∷◌, ◌++◌, ◌≡◌, refl, map, arith, take_last, ◌<◌}
use symm.Circular.{
  Circular, create, push, replace_tail, latest, values, for_each, push_all, read_from,
}
use symm.Circular.Valid.{IsValid, create-IsValid, push_all-IsValid}
use symm.Circular.Retained.{values-push_all}
use symm.Circular.Tail.{latest-eq-last, values-replace_tail, replace_last, last_or}
use symm.Circular.Visits.{for_each-eq-values, number_from}

abbrev five : List ℕ
five = 10 ∷ 20 ∷ 30 ∷ 40 ∷ 50 ∷ []

-- Five values in a ring of three.
abbrev wrapped : Circular ℕ
wrapped = push_all five (create 3)

kept : values wrapped ≡ some 30 ∷ some 40 ∷ some 50 ∷ []
unfolding create push push_all values read_from
kept = refl

values-push_all_example :
    values wrapped
    ≡ take_last (create {T = ℕ} 3).positions (values (create {T = ℕ} 3) ++ map some five)
values-push_all_example = values-push_all five (create 3) (create-IsValid 3)

wrapped-IsValid : IsValid wrapped
wrapped-IsValid = push_all-IsValid five (create 3) (create-IsValid 3)

wrapped_room : 0 < wrapped.positions
unfolding create push push_all
wrapped_room = omega arith

values-replace_tail_example :
    values (replace_tail 99 wrapped) ≡ replace_last (some 99) (values wrapped)
values-replace_tail_example = values-replace_tail 99 wrapped wrapped-IsValid wrapped_room

latest_is_last : latest wrapped ≡ last_or none (values wrapped)
latest_is_last = latest-eq-last wrapped

visited_in_order : for_each wrapped ≡ number_from 0 (values wrapped)
visited_in_order = for_each-eq-values wrapped
