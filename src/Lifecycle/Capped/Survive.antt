-- ===== src/Lifecycle/Capped/Survive.antt =====
-- Eviction drops only what is over: an open round trip is never lost to a cap.
use symm.Base.{
  ℕ, zero, suc, ◌≡◌, sym, ap, ◌∙◌, String, Bool, true, false, Option, none, some, [], ◌∷◌, ◌==◌,
  eq_iff, eq_refl, arith, if◌then◌else◌, Dict, lookup, delete, ltb, length, Bool-cases,
  Option-cases, inl, inr, ◌&&◌, IsMap, IsMap-delete, IsMap-insert, lookup-delete, lookup-insert,
}
use symm.Lifecycle.{Lifecycle}
use symm.Lifecycle.Capped.{
  Lives, is_history, is_over, same_flag, count_of, first_over, evict_while, limit_of, move_to_end,
  is_unchanged, store_life,
}
use symm.Lifecycle.Capped.Bounds.{store_life-cases}

-- May `evictClosed` take this round trip?
abbrev pub can_go : Bool → Lifecycle → Bool
can_go history life = same_flag history (is_history life) && is_over life

first_over-lookup :
    (history : Bool) (m : Dict Lifecycle) (id : String)
    → IsMap m
    → first_over history m ≡ some id
    → (life : Lifecycle) × (lookup id m ≡ some life) × (can_go history life ≡ true)
unfolding first_over lookup
first_over-lookup history [] id h e = cc
first_over-lookup history ((j, w) ∷ m) id (fresh, rest) e = elim (Bool-cases (can_go history w)) [
  | inl goes ↦ (w, ground (arith, goes, eq_refl j), goes)
  | inr stays ↦
      let (life, found, goes) = first_over-lookup history m id rest (rw (stays, first_over) at e) in
      (life, ground (arith, eq_iff j id, found), goes)
]

pub evict_while-IsMap :
    (fuel : ℕ) (history : Bool) (limit : ℕ) (s : Lives)
    → IsMap s.lives
    → IsMap (evict_while fuel history limit s).lives
unfolding evict_while
evict_while-IsMap zero history limit s h = h
evict_while-IsMap (suc fuel) history limit s h =
    elim (Bool-cases (ltb limit (count_of history s.lives))) [
      | inr fits ↦ rw (fits, evict_while) h
      | inl over ↦ elim (Option-cases (first_over history s.lives)) [
        | inl stuck ↦ rw (over, stuck, evict_while) h
        | inr (id, found) ↦
            rw (over, found, evict_while)
              (evict_while-IsMap fuel history limit
                (record { lives = delete id s.lives; stamps = delete id s.stamps })
                (IsMap-delete id s.lives h))
      ]
    ]

false-ne-true : false ≡ true → ⊥
false-ne-true h = cc

pub moved-IsMap : (life : Lifecycle) (s : Lives) → IsMap s.lives → IsMap (move_to_end life s).lives
unfolding move_to_end
moved-IsMap life s h =
    IsMap-insert life.id life (delete life.id s.lives) (IsMap-delete life.id s.lives h)

goes_of : Bool → Option Lifecycle → Bool
goes_of history none = false
goes_of history (some life) = can_go history life

other_stays :
    (history : Bool) (m : Dict Lifecycle) (id j : String) (gone life : Lifecycle)
    → lookup id m ≡ some gone
    → can_go history gone ≡ true
    → lookup j m ≡ some life
    → can_go history life ≡ false
    → lookup j (delete id m) ≡ some life
unfolding goes_of
other_stays history m id j gone life at_id goes there stays = elim (Bool-cases (id == j)) [
  | inl hit ↦ absurd (
      false-ne-true (
        sym stays
        ∙ ap (goes_of history) (sym there)
        ∙ ap (λ k. goes_of history (lookup k m)) (sym ((eq_iff id j).0 hit))
        ∙ ap (goes_of history) at_id
        ∙ goes))
  | inr miss ↦ lookup-delete id j m ∙ rw miss there
]

pub evict_while-keeps :
    (fuel : ℕ) (history : Bool) (limit : ℕ) (s : Lives) (j : String) (life : Lifecycle)
    → IsMap s.lives
    → lookup j s.lives ≡ some life
    → can_go history life ≡ false
    → lookup j (evict_while fuel history limit s).lives ≡ some life
unfolding evict_while
evict_while-keeps zero history limit s j life h there stays = there
evict_while-keeps (suc fuel) history limit s j life h there stays =
    elim (Bool-cases (ltb limit (count_of history s.lives))) [
      | inr fits ↦ rw (fits, evict_while) there
      | inl over ↦ elim (Option-cases (first_over history s.lives)) [
        | inl stuck ↦ rw (over, stuck, evict_while) there
        | inr (id, found) ↦
            let (gone, at_id, goes) = first_over-lookup history s.lives id h found in
            rw (over, found, evict_while)
              (evict_while-keeps fuel history limit
                (record { lives = delete id s.lives; stamps = delete id s.stamps }) j life
                (IsMap-delete id s.lives h)
                (other_stays history s.lives id j gone life at_id goes there stays) stays)
      ]
    ]

-- Storing a round trip keeps the map a map.
pub store_life-IsMap :
    (life : Lifecycle) (s : Lives) → IsMap s.lives → IsMap (store_life life s).0.lives
store_life-IsMap life s h = elim (store_life-cases life s) [
  | inl (same, e) ↦ rw e h
  | inr (changed, e) ↦ rw e (
      evict_while-IsMap (length (move_to_end life s).lives) (is_history life)
        (limit_of (is_history life)) (move_to_end life s) (moved-IsMap life s h))
]

pub lookup-move_to_end :
    (life : Lifecycle) (s : Lives) (j : String)
    → lookup j (move_to_end life s).lives ≡ (if life.id == j then some life else lookup j s.lives)
unfolding move_to_end
lookup-move_to_end life s j =
    ground (
      arith,
      lookup-insert life.id j life (delete life.id s.lives),
      lookup-delete life.id j s.lives,
    )

-- Where no id stands twice, storing one round trip never drops or changes another that is still
-- open, of the session or the history.
pub store_life-keeps_open :
    (life : Lifecycle) (s : Lives) (j : String) (other : Lifecycle)
    → IsMap s.lives
    → (life.id == j) ≡ false
    → lookup j s.lives ≡ some other
    → is_over other ≡ false
    → lookup j (store_life life s).0.lives ≡ some other
store_life-keeps_open life s j other h apart there runs = elim (store_life-cases life s) [
  | inl (same, e) ↦ rw e there
  | inr (changed, e) ↦ rw e (
      evict_while-keeps (length (move_to_end life s).lives) (is_history life)
        (limit_of (is_history life)) (move_to_end life s) j other (moved-IsMap life s h)
        (lookup-move_to_end life s j ∙ rw apart there) (ground (arith, runs)))
]

-- Where no id stands twice, a round trip that is open and new or changed is in the store after it
-- was stored.
pub store_life-present :
    (life : Lifecycle) (s : Lives)
    → IsMap s.lives
    → is_unchanged life s ≡ false
    → is_over life ≡ false
    → lookup life.id (store_life life s).0.lives ≡ some life
store_life-present life s h changed runs = elim (store_life-cases life s) [
  | inl (same, e) ↦ absurd (false-ne-true (sym changed ∙ same))
  | inr (_, e) ↦ rw e (
      evict_while-keeps (length (move_to_end life s).lives) (is_history life)
        (limit_of (is_history life)) (move_to_end life s) life.id life (moved-IsMap life s h)
        (lookup-move_to_end life s life.id ∙ ground (arith, eq_refl life.id))
        (ground (arith, runs)))
]
