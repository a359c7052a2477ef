-- ===== src/Lifecycle/Capped/Bounds.antt =====
-- The caps: after a change the store holds at most the cap of its kind, or nothing of that kind
-- can go.
use symm.Base.{
  ℕ, zero, suc, ◌≤◌, ◌<◌, ◌≡◌, ◌≢◌, ◌⊎◌, All, keep, none-ne-some, refl, sym, ap, ◌∙◌, String, Bool,
  true, false, none, some, [], ◌∷◌, eq_iff, arith, Dict, delete, ltb, length, Bool-cases,
  Option-cases, inl, inr,
}
use symm.Lifecycle.{Lifecycle}
use symm.Lifecycle.Capped.{
  Lives, is_history, count_of, first_over, evict_while, limit_of, move_to_end, is_unchanged,
  store_life, is_over, same_flag,
}

length-delete : (k : String) (m : Dict Lifecycle) → length (delete k m) ≤ length m
unfolding delete
length-delete k [] = omega arith
length-delete k ((j, w) ∷ m) = ground (arith, length-delete k m)

-- What `evictClosed` finds is there, so dropping it makes the map shorter.
length-evict :
    (history : Bool) (m : Dict Lifecycle) (id : String)
    → first_over history m ≡ some id
    → length (delete id m) < length m
unfolding first_over delete
length-evict history [] id e = cc
length-evict history ((j, w) ∷ m) id e =
    ground (arith, length-delete id m, length-evict history m id, eq_iff j id)

first_over-empty :
    (history : Bool) (m : Dict Lifecycle) → length m ≤ 0 → first_over history m ≡ none
unfolding first_over
first_over-empty history [] h = refl
first_over-empty history (e ∷ m) h = absurd (omega arith)

-- With fuel for every round trip the loop ends by one of its two exits.
evict_while_stops :
    (fuel : ℕ) (history : Bool) (limit : ℕ) (s : Lives)
    → length s.lives ≤ fuel
    → (count_of history (evict_while fuel history limit s).lives ≤ limit)
      ⊎ (first_over history (evict_while fuel history limit s).lives ≡ none)
unfolding evict_while
evict_while_stops zero history limit s h = inr (first_over-empty history s.lives h)
evict_while_stops (suc fuel) history limit s h =
    elim (Bool-cases (ltb limit (count_of history s.lives))) [
      | inr fits ↦ rw (fits, evict_while) (inl (ground arith))
      | inl over ↦ elim (Option-cases (first_over history s.lives)) [
        | inl stuck ↦ rw (over, stuck, evict_while) (inr stuck)
        | inr (id, found) ↦
            rw (over, found, evict_while)
              (evict_while_stops fuel history limit
                (record { lives = delete id s.lives; stamps = delete id s.stamps })
                (omega (arith, length-evict history s.lives id found)))
      ]
    ]

-- The two ends of `storeLife`.
pub store_life-cases :
    (life : Lifecycle) (s : Lives)
    → ((is_unchanged life s ≡ true) × (store_life life s ≡ (s, false)))
      ⊎ ((is_unchanged life s ≡ false)
          × (store_life life s ≡ (
            evict_while
                (length (move_to_end life s).lives)
                (is_history life)
                (limit_of (is_history life))
                (move_to_end life s),
            true,
          )))
unfolding store_life
store_life-cases life s = elim (Bool-cases (is_unchanged life s)) [
  | inl same ↦ inl (same, rw (same, store_life))
  | inr changed ↦ inr (changed, rw (changed, store_life))
]

-- How many round trips of a kind a map may hold: 10,000 of the history, 200 of the session.
abbrev pub cap : Bool → ℕ
cap true = 10_000
cap false = 200

-- Of another kind, or still open: neither closed nor abandoned.
abbrev pub IsKept : Bool → String × Lifecycle → Type 0
IsKept history (id, life) =
    (is_history life ≢ history) ⊎ ((life.status ≢ "closed") × (life.status ≢ "abandoned"))

-- The round trips of a kind.
abbrev pub of_kind : Bool → Dict Lifecycle → Dict Lifecycle
of_kind history = keep (λ e. same_flag history (is_history e.1))

true-ne-false : true ≡ false → ⊥
true-ne-false h = cc

same_flag_self : (b : Bool) → same_flag b b ≡ true
same_flag_self true = refl
same_flag_self false = refl

-- Where `evictClosed` finds nothing, nothing of the kind is over.
first_over-IsKept :
    (history : Bool) (m : Dict Lifecycle) → first_over history m ≡ none → All (IsKept history) m
unfolding first_over
first_over-IsKept history [] e = tt
first_over-IsKept history ((id, life) ∷ m) e =
    elim (Bool-cases (same_flag history (is_history life))) [
      | inr apart ↦ (
        inl (λ same.
            true-ne-false
              (sym (ap (λ b. same_flag history b) same ∙ same_flag_self history) ∙ apart)),
        first_over-IsKept history m (rw apart at e),
      )
      | inl ours ↦ elim (Bool-cases (is_over life)) [
        | inl over ↦ absurd (none-ne-some (sym (rw (ours, over) at e)))
        | inr open_still ↦ (
          inr (
              (
                λ is. true-ne-false (ground (arith, eq_iff life.status "closed")),
                λ is. true-ne-false (ground (arith, eq_iff life.status "abandoned")),
              )),
          first_over-IsKept history m (rw (ours, open_still) at e),
        )
      ]
    ]

length-of_kind :
    (history : Bool) (m : Dict Lifecycle) → length (of_kind history m) ≡ count_of history m
unfolding count_of
length-of_kind history [] = refl
length-of_kind history ((id, life) ∷ m) = ground (arith, length-of_kind history m)

limit_of-eq-cap : (history : Bool) → limit_of history ≡ cap history
limit_of-eq-cap true = refl
limit_of-eq-cap false = refl

capped_or_IsKept :
    (history : Bool) (m : Dict Lifecycle)
    → (count_of history m ≤ limit_of history) ⊎ (first_over history m ≡ none)
    → (length (of_kind history m) ≤ cap history) ⊎ All (IsKept history) m
capped_or_IsKept history m (inl fits) =
    inl (omega (arith, fits, length-of_kind history m, limit_of-eq-cap history))
capped_or_IsKept history m (inr stuck) = inr (first_over-IsKept history m stuck)

-- After a round trip that is new or changed is stored, there are at most 10,000 round trips of the
-- history if it is one of them, or at most 200 of the session if it is not; or every one of its kind
-- that is left is still open, neither closed nor abandoned.
pub store_life-capped :
    (life : Lifecycle) (s : Lives)
    → (store_life life s).1 ≡ true
    → let m = (store_life life s).0.lives in
      (length (of_kind (is_history life) m) ≤ cap (is_history life))
      ⊎ All (IsKept (is_history life)) m
store_life-capped life s stored = elim (store_life-cases life s) [
  | inl (same, e) ↦ absurd (true-ne-false (sym stored ∙ ap (λ r. r.1) e))
  | inr (changed, e) ↦ rw e (
      capped_or_IsKept (is_history life) _ (
        evict_while_stops (length (move_to_end life s).lives) (is_history life)
          (limit_of (is_history life)) (move_to_end life s) (omega arith)))
]
