-- ===== src/Lifecycle/Positions/Tape.antt =====
-- What a position's frames leave in its round trip.
use symm.Base.{
  ◌≡◌, refl, sym, ap, ◌∙◌, true, false, not, Option, none, some, List, [], ◌∷◌, ◌++◌, or_value,
  lookup, length-append, eqb, arith, IsMap,
}
use symm.Lifecycle.{Lifecycle, LifeEvent, value}
use symm.Lifecycle.Capped.{Lives, store_life, is_unchanged, desk_life_changed, is_over, size_of}
use symm.Lifecycle.Capped.Survive.{store_life-present}
use symm.Lifecycle.Positions.{
  PositionInput, is_snapshot, is_frame, next_life, ingest_position_frame, add_event,
}

longer :
    (old : Option (List LifeEvent)) (event : LifeEvent)
    → eqb (size_of old) (size_of (some (or_value old [] ++ event ∷ []))) ≡ false
longer none event = refl
longer (some events) event = ground (arith, length-append events (event ∷ []))

-- One more event is a change.
event_is_change :
    (prev next : Lifecycle) (event : LifeEvent)
    → next.events ≡ some (or_value prev.events [] ++ event ∷ [])
    → desk_life_changed prev next ≡ true
unfolding desk_life_changed
event_is_change prev next event e =
    let grew : eqb (size_of prev.events) (size_of next.events) ≡ false =
      ap (λ l. eqb (size_of prev.events) (size_of l)) e ∙ longer prev.events event in
    ground (arith, grew)

-- An event is never lost on a known position that runs: where no id stands twice, the position is
-- there, and a frame that is no snapshot has an event and a status neither closed nor abandoned, the round trip is there after it, with the event as its last one
-- and the earlier ones before it.
pub ingest_position_frame-event :
    (input : PositionInput) (s : Lives) (life : Lifecycle) (event : LifeEvent)
    → IsMap s.lives
    → is_snapshot input ≡ false
    → is_frame input ≡ true
    → lookup input.life.id s.lives ≡ some life
    → life.id ≡ input.life.id
    → input.event ≡ value event
    → is_over input.life ≡ false
    → (after : Lifecycle) × (lookup input.life.id (ingest_position_frame input s).0.lives
        ≡ some after)
      × (after.events ≡ some (or_value life.events [] ++ event ∷ []))
unfolding ingest_position_frame next_life is_unchanged
ingest_position_frame-event input s life event h other ours there named has runs =
    let after : Lifecycle = next_life input life in
    let events : after.events ≡ some (or_value life.events [] ++ event ∷ []) =
      ap (λ e. add_event e life.events) has in
    let changed : is_unchanged after s ≡ false =
      rw (ap (λ id. lookup id s.lives) named ∙ there, is_unchanged)
        (ap not (event_is_change life after event events)) in
    (
      after,
      rw (other, ours, there, ingest_position_frame)
          (ap (λ id. lookup id (store_life after s).0.lives) (sym named)
            ∙ store_life-present after s h changed runs),
      events,
    )
