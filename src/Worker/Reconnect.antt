-- ===== src/Worker/Reconnect.antt =====
-- Reconnecting: the delay, and what happens between a lost connection and the next socket.
use symm.Base.{
  if◌then◌else◌, ℕ, zero, suc, ◌+◌, ◌*◌, ◌^◌, ◌≤◌, ◌≡◌, refl, String, Bool, true, false, none, some,
  Option, List, [], ◌∷◌, ◌<◌, All, ◌++◌, arith, ◌==◌, ◌⊎◌,
}
use native.Mathlib.Nat.{pow-suc}
use native.Mathlib.Numerals.{add-one}
use symm.Worker.Traces.{linked}
use symm.Worker.Traces.Connects.{connect-accepted}
use symm.Worker.{
  is_live, Worker, ReadyState, opened, connecting, closing, shut, Effect, Event, clear_timer,
  connect_message, focus_message, route_message, position_exit_message, command_message,
  socket_message, socket_error, disconnect_message, socket_open, post_offline, set_timer,
  make_socket, close_socket, socket_close, timer_fired, step, on_close, teardown_socket, disconnect,
  reconnect_delay,
}

pow_pos : (n : ℕ) → 1 ≤ 2 ^ n
pow_pos zero = omega arith
pow_pos (suc n) = omega (arith, pow_pos n, pow-suc 2 n)

pow_next : (n : ℕ) → 2 ^ (n + 1) ≡ 2 * 2 ^ n
pow_next n = rw add-one (omega (arith, pow-suc 2 n))

-- The delay lies between half a second and ten seconds, and never falls as the attempts go on;
-- until it is at the ceiling it doubles.
pub reconnect_delay_bounds :
    (n : ℕ)
    → (500 ≤ reconnect_delay n)
      × (reconnect_delay n ≤ 10_000)
      × (reconnect_delay n ≤ reconnect_delay (n + 1))
      × ((reconnect_delay (n + 1) ≡ 2 * reconnect_delay n) ⊎ (reconnect_delay (n + 1) ≡ 10_000))
unfolding reconnect_delay
reconnect_delay_bounds n = omega (arith, pow_pos n, pow_next n)

module _ {J : Type 0} (accepts : String → Bool) (parse : List ℕ → String ⊎ J) where
  abbrev waiting : Worker → Worker
  waiting s = record s { timer = true }

  abbrev retrying : Worker → Worker
  retrying s = record s { timer = false; attempts = s.attempts + 1 }

  on_close-current :
      (ready : ℕ → ReadyState) (g : ℕ) (s : Worker)
      → s.generation ≡ g
      → s.timer ≡ false
      → on_close {J = J} ready g s
        ≡ (waiting s, post_offline ∷ set_timer (reconnect_delay s.attempts) ∷ [])
  unfolding on_close
  on_close-current ready g s current idle = ground arith

  -- A lost connection comes back. When the current socket closes and no timer waits, the page is
  -- told and one timer is set, with the delay of the attempts so far; when it fires, a socket of
  -- the next generation is made for the same URL, one attempt is counted and no timer waits. The
  -- queue is kept.
  pub reconnects :
      (ready ready' : ℕ → ReadyState) (g : ℕ) (s : Worker)
      → s.generation ≡ g
      → s.timer ≡ false
      → (s.connect_url == "") ≡ false
      → accepts s.connect_url ≡ true
      → let (s1, lost) = step ready accepts parse (socket_close g) s in
        let (s2, found) = step ready' accepts parse timer_fired s1 in
        (lost ≡ post_offline ∷ set_timer (reconnect_delay s.attempts) ∷ [])
        × (s1.timer ≡ true)
        × (found ≡ (teardown_socket ready' s1).1 ++ make_socket (g + 1) s.connect_url ∷ [])
        × (s2 ≡ record s { socket = some (g + 1); attempts = s.attempts + 1; generation = g + 1 })
  unfolding step
  reconnects ready ready' g s current idle named fine =
      rw (on_close-current ready g s current idle) (
        refl,
        refl,
        ground (arith, connect-accepted accepts parse ready' s.connect_url (retrying s) named fine),
        ground (arith, connect-accepted accepts parse ready' s.connect_url (retrying s) named fine),
      )

  -- `CONNECT` does not clear a timer that waits: when it fires, the socket that `CONNECT` made is
  -- closed, though it is open, and another one is made for the same URL.
  pub stale_timer :
      (ready ready' : ℕ → ReadyState) (url : String) (s : Worker)
      → s.timer ≡ true
      → (url == "") ≡ false
      → accepts url ≡ true
      → ready' (s.generation + 1) ≡ opened
      → let (s1, _) = step ready accepts parse (connect_message (some url)) s in
        let (s2, es) = step ready' accepts parse timer_fired s1 in
        (s1.timer ≡ true)
        × (s1.socket ≡ some (s.generation + 1))
        × (es ≡ close_socket (s.generation + 1) ∷ make_socket (s.generation + 1 + 1) url ∷ [])
  unfolding step
  stale_timer ready ready' url s waits named fine up =
      rw (connect-accepted accepts parse ready url s named fine) (
        waits,
        refl,
        ground
            (arith, connect-accepted accepts parse ready' url (retrying (linked url s)) named fine),
      )

  -- The sockets that `DISCONNECT` closes: the current one, if it is open or connects.
  abbrev pub closed_by : (ℕ → ReadyState) → Option ℕ → List (Effect J)
  closed_by ready none = []
  closed_by ready (some g) = elim (ready g) [
    | opened ↦ close_socket g ∷ []
    | connecting ↦ close_socket g ∷ []
    | _ ↦ []
  ]

  closed_if_live :
      (r : ReadyState) (g : ℕ)
      → (if is_live r then close_socket g ∷ [] else []) ≡ closed_by (λ h. r) (some g)
  closed_if_live connecting g = refl
  closed_if_live opened g = refl
  closed_if_live closing g = refl
  closed_if_live shut g = refl

  teardown-closed_by :
      (ready : ℕ → ReadyState) (s : Worker) (o : Option ℕ)
      → s.socket ≡ o
      → (teardown_socket {J = J} ready s).1 ≡ closed_by ready s.socket
  unfolding teardown_socket
  teardown-closed_by ready s none e = rw e refl
  teardown-closed_by ready s (some g) e = rw e (closed_if_live (ready g) g)

  -- A timer that waits is cleared.
  abbrev pub cleared_by : Bool → List (Effect J)
  cleared_by true = clear_timer ∷ []
  cleared_by false = []

  cleared_if : (b : Bool) → (if b then clear_timer ∷ [] else []) ≡ cleared_by b
  cleared_if true = refl
  cleared_if false = refl

  -- Events of sockets up to a generation, other than messages.
  abbrev pub IsPastEvent : ℕ → Event → Type 0
  IsPastEvent generation (socket_open g) = g ≤ generation
  IsPastEvent generation (socket_close g) = g ≤ generation
  IsPastEvent generation (socket_error g error) = g ≤ generation
  IsPastEvent generation _ = ⊥

  -- A sequence of events, each with the states of the sockets at its time.
  abbrev pub run : List ((ℕ → ReadyState) × Event) → Worker → Worker × List (Effect J)
  run [] s = (s, [])
  run ((ready, e) ∷ es) s =
      let (s1, done) = step ready accepts parse e s in
      let (s2, more) = run es s1 in (s2, done ++ more)

  past_step :
      (ready : ℕ → ReadyState) (e : Event) (s : Worker) (past : ℕ)
      → past < s.generation
      → IsPastEvent past e
      → step ready accepts parse e s ≡ (s, [])
  unfolding step
  past_step ready (socket_open g) s past h old = ground arith
  past_step ready (socket_close g) s past h old = ground arith
  past_step ready (socket_error g error) s past h old = ground arith
  past_step ready (connect_message url) s past h old = absurd old
  past_step ready disconnect_message s past h old = absurd old
  past_step ready (focus_message symbol) s past h old = absurd old
  past_step ready (route_message route) s past h old = absurd old
  past_step ready (position_exit_message symbol) s past h old = absurd old
  past_step ready (command_message c) s past h old = absurd old
  past_step ready (socket_message g wire) s past h old = absurd old
  past_step ready timer_fired s past h old = absurd old

  past_run :
      (es : List ((ℕ → ReadyState) × Event)) (s : Worker) (past : ℕ)
      → past < s.generation
      → All (λ e. IsPastEvent past e.1) es
      → run es s ≡ (s, [])
  past_run [] s past h old = refl
  past_run ((ready, e) ∷ es) s past h (here, old) =
      rw (past_step ready e s past h here) (rw (past_run es s past h old) refl)

  -- `DISCONNECT` clears the timer that waits and closes the current socket if it is open or
  -- connects, and does no more. No timer, no queue, no socket and no counted attempt is left; and
  -- however often the sockets made before it still open, close or fail, in whatever order, nothing
  -- changes and nothing is done. (A message that an old socket still delivers is not meant.)
  pub disconnect_silent :
      (ready : ℕ → ReadyState) (s : Worker) (es : List ((ℕ → ReadyState) × Event))
      → All (λ e. IsPastEvent s.generation e.1) es
      → let (s', done) = step ready accepts parse disconnect_message s in
        (done ≡ cleared_by s.timer ++ closed_by ready s.socket)
        × (s'.timer ≡ false)
        × (s'.pending ≡ [])
        × (s'.socket ≡ none)
        × (s'.attempts ≡ 0)
        × (run es s' ≡ (s', []))
  unfolding step disconnect teardown_socket
  disconnect_silent ready s es old = (
    (λ i. cleared_if s.timer i ++ teardown-closed_by ready s s.socket refl i),
    refl,
    refl,
    refl,
    refl,
    past_run es _ s.generation (omega arith) old,
  )
