-- ===== src/Worker/Traces/Invariant.antt =====
-- The invariant of every reachable state.
use symm.Base.{
  ℕ, ◌+◌, ◌≡◌, ◌≢◌, refl, ap, String, Bool, true, false, List, [], ◌++◌, arith, ◌⊎◌, inl, inr, any,
  eqb, or_value,
}
use mathlib.Core.Path.{subst}
use symm.Worker.Links.{stale_silent}
use symm.Base.{All, Bool-cases, some, ◌∷◌}
use symm.Worker.Traces.{IsPlaced}
use symm.Worker.{
  Worker, ReadyState, Effect, route_frame, focus_frame, exit_frame, Event, connect_message,
  disconnect_message, focus_message, route_message, position_exit_message, command_message,
  socket_open, socket_close, socket_error, socket_message, timer_fired, step, initial, on_command,
  on_open, on_close, on_error, on_message, send_now,
}
use symm.Worker.Queue.{count_hindsight}
use symm.Worker.Traces.{made_by, World, CanHappen, IsConsistent, after, act, Reach, start, next}
use symm.Worker.Traces.Quiet.{IsQuiet, quiet-IsConsistent}
use symm.Worker.Traces.Connects.{connect-IsConsistent, disconnect-IsConsistent}
use symm.Worker.Traces.Listeners.{
  send_now-made, on_open-IsQuiet, on_close-IsQuiet, on_error-IsQuiet, on_message-IsQuiet,
  on_command-IsQuiet, on_open-kept, on_error-kept, on_message-kept, on_close-kept, on_command-kept,
  on_command-one,
}

module _ {J : Type 0} (accepts : String → Bool) (parse : List ℕ → String ⊎ J) where
  start-IsConsistent : IsConsistent (record { worker = initial; made = [] })
  unfolding count_hindsight
  start-IsConsistent = record {
    current = tt;
    placed = tt;
    url_of_made = inl refl;
    url_of_timer = λ e. cc;
    one_hindsight = omega arith;
  }

  -- A quiet listener that leaves the timer and the queue alone.
  calm-IsConsistent :
      (w : World) (r : Worker × List (Effect J))
      → IsConsistent w
      → IsQuiet w.worker r
      → r.0.timer ≡ w.worker.timer
      → r.0.pending ≡ w.worker.pending
      → IsConsistent (record { worker = r.0; made = made_by r.1 ++ w.made })
  calm-IsConsistent w r h q timer pending =
      quiet-IsConsistent w r h q (rw (timer, q.same_url) h.url_of_timer)
        (rw pending h.one_hindsight)

  has_url :
      (g : ℕ) (w : World) → any (eqb g) w.made ≡ true → IsConsistent w → w.worker.connect_url ≢ ""
  has_url g w can h = elim h.url_of_made [
    | inl nothing ↦ absurd (true-ne-false (rw nothing at can))
    | inr url ↦ url
  ]
    where
      true-ne-false : false ≡ true → ⊥
      true-ne-false e = cc

  after-IsConsistent :
      (ready : ℕ → ReadyState) (e : Event) (w : World)
      → CanHappen e w
      → IsConsistent w
      → IsConsistent (after accepts parse ready e w)
  unfolding step
  after-IsConsistent ready (connect_message url) w can h =
      connect-IsConsistent accepts parse ready (or_value url "") w h
  after-IsConsistent ready disconnect_message w can h =
      disconnect-IsConsistent accepts parse ready w h
  after-IsConsistent ready (focus_message symbol) w can h =
      rw (send_now-made accepts parse ready (focus_frame (or_value symbol "")) w.worker) h
  after-IsConsistent ready (route_message route) w can h =
      let s' : Worker = record w.worker { route = or_value route "" } in
      let r : Worker × List (Effect J) =
        (s', send_now ready (route_frame (or_value route "")) s') in
      calm-IsConsistent w r h
        (record {
          same_socket = refl;
          same_generation = refl;
          same_url = refl;
          none_made = send_now-made accepts parse ready (route_frame (or_value route "")) s';
        })
        refl refl
  after-IsConsistent ready (position_exit_message symbol) w can h =
      rw (send_now-made accepts parse ready (exit_frame (or_value symbol "")) w.worker) h
  after-IsConsistent ready (command_message c) w can h =
      let q = on_command-IsQuiet accepts parse ready w.worker c in
      quiet-IsConsistent w (on_command ready accepts parse c w.worker) h q
        (rw (on_command-kept accepts parse ready w.worker c, q.same_url) h.url_of_timer)
        (on_command-one accepts parse ready w.worker c h.one_hindsight)
  after-IsConsistent ready (socket_open g) w can h =
      let (timer, pending) = on_open-kept accepts parse ready w.worker g in
      calm-IsConsistent w (on_open ready g w.worker) h
        (on_open-IsQuiet accepts parse ready w.worker g) timer pending
  after-IsConsistent ready (socket_close g) w can h =
      let q = on_close-IsQuiet accepts parse ready w.worker g in
      quiet-IsConsistent w (on_close ready g w.worker) h q (λ t. rw q.same_url (has_url g w can h))
        (rw (on_close-kept accepts parse ready w.worker g) h.one_hindsight)
  after-IsConsistent ready (socket_error g error) w can h =
      let same = on_error-kept accepts parse ready w.worker g error in
      calm-IsConsistent w (on_error ready g error w.worker) h
        (on_error-IsQuiet accepts parse ready w.worker g error) (ap (λ s. s.timer) same)
        (ap (λ s. s.pending) same)
  after-IsConsistent ready (socket_message g wire) w can h =
      let same = on_message-kept accepts parse ready w.worker wire in
      calm-IsConsistent w (on_message parse wire w.worker) h
        (on_message-IsQuiet accepts parse ready w.worker wire) (ap (λ s. s.timer) same)
        (ap (λ s. s.pending) same)
  after-IsConsistent ready timer_fired w can h =
      connect-IsConsistent accepts parse ready w.worker.connect_url
        (record {
          worker = record w.worker { timer = false; attempts = w.worker.attempts + 1 };
          made = w.made;
        })
        (record {
          current = h.current;
          placed = h.placed;
          url_of_made = h.url_of_made;
          url_of_timer = λ t. cc;
          one_hindsight = h.one_hindsight;
        })

  -- Whatever the browser and the main thread do: the `socket` variable holds a socket of the newest
  -- generation or none, every other socket made is of a past generation, a reconnect that waits has
  -- a URL to go to, and the queue holds at most one hindsight request.
  pub Reach-IsConsistent : {w : World} → Reach accepts parse w → IsConsistent w
  Reach-IsConsistent start = start-IsConsistent
  Reach-IsConsistent (next {w} r (act ready e can)) =
      after-IsConsistent ready e w can (Reach-IsConsistent r)

  IsPlaced-of_made :
      (s : Worker) (g : ℕ) (gs : List ℕ)
      → any (eqb g) gs ≡ true
      → All (IsPlaced s) gs
      → IsPlaced s g
  IsPlaced-of_made s g [] made h = cc
  IsPlaced-of_made s g (k ∷ gs) made (here, rest) = elim (Bool-cases (eqb g k)) [
    | inl hit ↦ let same : k ≡ g = ground arith in subst (IsPlaced s) same here
    | inr miss ↦ IsPlaced-of_made s g gs (rw (miss, any) at made) rest
  ]

  -- In every reachable state a socket that was replaced has no say: when it opens, closes or fails,
  -- nothing changes and nothing is done.
  pub superseded_silent :
      {w : World} (ready : ℕ → ReadyState) (g : ℕ) (error : String)
      → Reach accepts parse w
      → any (eqb g) w.made ≡ true
      → w.worker.socket ≢ some g
      → (step ready accepts parse (socket_open g) w.worker ≡ (w.worker, []))
        × (step ready accepts parse (socket_close g) w.worker ≡ (w.worker, []))
        × (step ready accepts parse (socket_error g error) w.worker ≡ (w.worker, []))
  superseded_silent {w} ready g error r made replaced =
      stale_silent ready accepts parse g error w.worker
        (past (IsPlaced-of_made w.worker g w.made made (Reach-IsConsistent r).placed))
    where
      past : IsPlaced w.worker g → g ≢ w.worker.generation
      past (inl lt) = omega arith
      past (inr (now, link)) = absurd (replaced link)
