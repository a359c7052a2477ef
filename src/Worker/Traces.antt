-- ===== src/Worker/Traces.antt =====
-- Every state that the worker can reach, whatever order the browser and the main thread choose.
pub mod Quiet
pub mod Connects
pub mod Listeners
pub mod Invariant
use symm.Base.{
  ℕ, zero, suc, ◌+◌, ◌≤◌, ◌<◌, ◌≡◌, ◌≢◌, refl, ap, ◌∙◌, String, Bool, true, false, Option, none,
  some, List, [], ◌∷◌, ◌++◌, map, arith, if◌then◌else◌, ◌==◌, ◌⊎◌, inl, inr, any, eqb, All, All-imp,
  Bool-cases, Option-cases, eq_iff, or_value,
}
use symm.Worker.{
  Worker, Command, Frame, Wire, ReadyState, Effect, post_online, post_offline, post_error,
  post_envelope, post_command_failed, send, command_frame, route_frame, focus_frame, exit_frame,
  make_socket, close_socket, set_timer, clear_timer, log_error, uncaught, Event, connect_message,
  disconnect_message, focus_message, route_message, position_exit_message, command_message,
  socket_open, socket_close, socket_error, socket_message, timer_fired, step, initial, connect,
  disconnect, on_command, on_open, on_close, on_error, on_message, on_timer, send_now, send_route,
  send_focus, send_position_exit, flush_commands, schedule_reconnect, teardown_socket,
  queue_command,
}
use symm.Worker.Queue.{count_hindsight, queue_command-count}

-- The sockets that some effects make.
unfoldable pub made_by : {J : Type 0} → List (Effect J) → List ℕ
made_by [] = []
made_by (make_socket g url ∷ es) = g ∷ made_by es
made_by (e ∷ es) = made_by es

-- The worker, and the sockets made so far.
pub record World : Type 0 where
  pub worker : Worker
  pub made : List ℕ

-- What can happen: only a socket that was made has events, and only a timer that is set fires.
abbrev pub CanHappen : Event → World → Type 0
CanHappen (socket_open g) w = any (eqb g) w.made ≡ true
CanHappen (socket_close g) w = any (eqb g) w.made ≡ true
CanHappen (socket_error g error) w = any (eqb g) w.made ≡ true
CanHappen (socket_message g wire) w = any (eqb g) w.made ≡ true
CanHappen timer_fired w = w.worker.timer ≡ true
CanHappen _ w = Unit

-- A socket belongs to a past generation, or is the current one.
abbrev pub IsPlaced : Worker → ℕ → Type 0
IsPlaced s g = (g < s.generation) ⊎ ((g ≡ s.generation) × (s.socket ≡ some g))

abbrev pub IsCurrent : Option ℕ → ℕ → Type 0
IsCurrent none generation = Unit
IsCurrent (some g) generation = g ≡ generation

pub record IsConsistent (w : World) : Type 0 where
  -- The `socket` variable holds the socket of the newest generation or none.
  pub current : IsCurrent w.worker.socket w.worker.generation
  pub placed : All (IsPlaced w.worker) w.made
  -- There is a URL to go back to whenever a socket was made or a reconnect waits.
  pub url_of_made : (w.made ≡ []) ⊎ (w.worker.connect_url ≢ "")
  pub url_of_timer : w.worker.timer ≡ true → w.worker.connect_url ≢ ""
  pub one_hindsight : count_hindsight w.worker.pending ≤ 1

-- After `connect`: with a new socket, and where `new WebSocket` threw.
abbrev pub linked : String → Worker → Worker
linked url s = record s {
  socket = some (s.generation + 1);
  connect_url = url;
  generation = s.generation + 1;
}

abbrev pub unlinked : String → Worker → Worker
unlinked url s = record s { socket = none; connect_url = url; generation = s.generation + 1 }

module _ {J : Type 0} (accepts : String → Bool) (parse : List ℕ → String ⊎ J) where
  abbrev pub after : (ℕ → ReadyState) → Event → World → World
  after ready e w =
      let (worker, effects) = step ready accepts parse e w.worker in
      record { worker = worker; made = made_by effects ++ w.made }

  -- One event; the browser may have moved any socket to another state before it.
  pub data Step (w : World) : World → Type 0 where
    act : (ready : ℕ → ReadyState) (e : Event) → CanHappen e w → Step w (after ready e w)

  pub data Reach : World → Type 0 where
    start : Reach (record { worker = initial; made = [] })
    next : {w w' : World} → Reach w → Step w w' → Reach w'
