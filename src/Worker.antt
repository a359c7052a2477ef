-- ===== src/Worker.antt =====
-- frontend/src/providers/ws-worker.ts: the worker that owns the hub's WebSocket. Its module
-- variables are the state, each listener is a function from state to state, and what a listener
-- does to the outside (posts, sends, timers, sockets) is a list of effects, in order.
--
-- Sockets are named by the generation that their listeners captured: `connect` raises the
-- generation before it makes one, so no two share a name. The browser's part is a parameter: the
-- state `ready` in which each socket is, the URLs that `new WebSocket` accepts (it throws on
-- others), and the reader of a JSON frame.
pub mod Queue
pub mod Links
pub mod Reconnect
pub mod Traces
mod Tests
use symm.Base.{
  ℕ, zero, suc, ◌+◌, ◌-◌, ◌*◌, ◌^◌, min, String, Bool, true, false, not, ◌⊎◌, inl, inr, Option,
  none, some, List, [], ◌∷◌, ◌++◌, map, ◌==◌, eqb, leb, if◌then◌else◌, or_value, keep, drop,
}

-- `readyState`: CONNECTING, OPEN, CLOSING, CLOSED
pub data ReadyState : Type 0 where
  connecting opened closing shut : ReadyState

-- A hub command: its `type`, and the rest of its JSON.
pub record Command : Type 0 where
  pub kind : String
  pub body : String

-- What is sent over the socket.
pub data Frame : Type 0 where
  command_frame : Command → Frame
  route_frame focus_frame exit_frame : String → Frame

-- `event.data` of a message: a buffer, a view of one (a `Uint8Array` or another view), or neither.
pub data Wire : Type 0 where
  array_buffer : List ℕ → Wire
  view : (buffer : List ℕ) (byte_offset byte_length : ℕ) → Wire
  text : Wire

pub data Effect (J : Type 0) : Type 0 where
  post_online post_offline : Effect J
  post_error : String → Effect J
  post_envelope : J → Effect J
  post_command_failed : Effect J
  send : ℕ → Frame → Effect J
  make_socket : ℕ → String → Effect J
  close_socket : ℕ → Effect J
  set_timer : ℕ → Effect J
  clear_timer : Effect J
  log_error : String → Effect J
  uncaught : Effect J

-- The module's variables. A timer is only ever compared with `null`.
pub record Worker : Type 0 where
  pub socket : Option ℕ
  pub connect_url : String
  pub timer : Bool
  pub attempts : ℕ
  pub generation : ℕ
  pub route : String
  pub pending : List Command

abbrev pub initial : Worker
initial = record {
  socket = none;
  connect_url = "";
  timer = false;
  attempts = 0;
  generation = 0;
  route = "dashboard";
  pending = [];
}

abbrev pub reconnect_base_ms : ℕ
reconnect_base_ms = 500

abbrev pub reconnect_max_ms : ℕ
reconnect_max_ms = 10_000

abbrev pub is_open : ReadyState → Bool
is_open opened = true
is_open _ = false

-- open or connecting
abbrev pub is_live : ReadyState → Bool
is_live opened = true
is_live connecting = true
is_live _ = false

abbrev pub is_hindsight : Command → Bool
is_hindsight c = c.kind == "hindsight"

-- `queueCommand`
unfoldable pub queue_command : Command → List Command → List Command
queue_command c pending =
    (if is_hindsight c then keep (λ item. not (is_hindsight item)) pending else pending) ++ c ∷ []

-- The delay of `scheduleReconnect`.
unfoldable pub reconnect_delay : ℕ → ℕ
reconnect_delay attempts = min (reconnect_base_ms * 2 ^ attempts) reconnect_max_ms

-- `raw.slice(from, to)` of a buffer
abbrev pub slice : List ℕ → ℕ → ℕ → List ℕ
slice bytes from to = first (to - from) (drop from bytes)
  where
    first : ℕ → List ℕ → List ℕ
    first zero xs = []
    first (suc n) [] = []
    first (suc n) (x ∷ xs) = x ∷ first n xs

-- `asArrayBuffer`
unfoldable pub as_array_buffer : Wire → Option (List ℕ)
as_array_buffer (array_buffer bytes) = some bytes
as_array_buffer (view buffer offset size) = some (slice buffer offset (offset + size))
as_array_buffer text = none

module _ {J : Type 0} (ready : ℕ → ReadyState) where
  -- Sends a frame if there is a socket and it is open.
  unfoldable pub send_now : Frame → Worker → List (Effect J)
  send_now frame s = elim s.socket [
    | none ↦ []
    | some g ↦ if is_open (ready g) then send g frame ∷ [] else []
  ]

  -- `flushCommands`
  unfoldable pub flush_commands : Worker → List (Effect J)
  flush_commands s = elim s.socket [
    | none ↦ []
    | some g ↦ if is_open (ready g) then map (λ c. send g (command_frame c)) s.pending else []
  ]

  -- `sendRoute`, `sendFocus`, `sendPositionExit`
  unfoldable pub send_route : String → Worker → Worker × List (Effect J)
  unfolding send_now
  send_route route s = let s' = record s { route = route } in (s', send_now (route_frame route) s')

  unfoldable pub send_focus : String → Worker → Worker × List (Effect J)
  unfolding send_now
  send_focus symbol s = (s, send_now (focus_frame symbol) s)

  unfoldable pub send_position_exit : String → Worker → Worker × List (Effect J)
  unfolding send_now
  send_position_exit symbol s = (s, send_now (exit_frame symbol) s)

  -- `teardownSocket`
  unfoldable pub teardown_socket : Worker → Worker × List (Effect J)
  teardown_socket s = (
    record s { generation = s.generation + 1; socket = none },
    elim s.socket [ none ↦ [] | some g ↦ if is_live (ready g) then close_socket g ∷ [] else [] ],
  )

  -- `scheduleReconnect`
  unfoldable pub schedule_reconnect : Worker → Worker × List (Effect J)
  schedule_reconnect s =
      if s.timer
      then (s, [])
      else (record s { timer = true }, set_timer (reconnect_delay s.attempts) ∷ [])

  module _ (accepts : String → Bool) where
    -- `connect`: the old socket is torn down before the new one is made.
    unfoldable pub connect : String → Worker → Worker × List (Effect J)
    unfolding teardown_socket
    connect url s =
        let (torn, closes) = teardown_socket s in
        let s' = record torn { connect_url = url } in
        if url == ""
        then (s, [])
        else if accepts url
        then (
          record s' { socket = some s'.generation },
          closes ++ make_socket s'.generation url ∷ [],
        )
        else (s', closes ++ uncaught ∷ [])

    -- The timer of `scheduleReconnect`.
    unfoldable pub on_timer : Worker → Worker × List (Effect J)
    unfolding connect
    on_timer s = connect s.connect_url (record s { timer = false; attempts = s.attempts + 1 })

  -- The listeners that `connect` adds, for the socket made at generation `g`.
  unfoldable pub on_open : ℕ → Worker → Worker × List (Effect J)
  unfolding send_now flush_commands
  on_open g s =
      let s' = record s { attempts = 0 } in
      if eqb g s.generation
      then (
        s',
        post_online
            ∷ ((if s.route == "" then [] else send_now (route_frame s.route) s')
                ++ flush_commands s'),
      )
      else (s, [])

  unfoldable pub on_close : ℕ → Worker → Worker × List (Effect J)
  unfolding schedule_reconnect
  on_close g s =
      let (s', timers) = schedule_reconnect s in
      if eqb g s.generation then (s', post_offline ∷ timers) else (s, [])

  unfoldable pub on_error : ℕ → String → Worker → Worker × List (Effect J)
  on_error g error s = if eqb g s.generation then (s, post_error error ∷ []) else (s, [])

-- `{`, the first byte of every JSON envelope
abbrev pub open_brace : ℕ
open_brace = 0x7b

-- The `message` listener; `parse` is `JSON.parse` of the decoded bytes, or the text of what it
-- throws.
unfoldable pub on_message :
    {J : Type 0} → (List ℕ → String ⊎ J) → Wire → Worker → Worker × List (Effect J)
unfolding as_array_buffer
on_message parse wire s = elim (as_array_buffer wire) [
  | none ↦ (s, [])
  | some [] ↦ (s, [])
  | some (b ∷ bytes) ↦
      if eqb b open_brace
      then elim (parse (b ∷ bytes)) [
        | inl error ↦ (s, log_error error ∷ post_error error ∷ [])
        | inr payload ↦ (s, post_envelope payload ∷ [])
      ]
      else (s, [])
]

-- The messages of the main thread (a field that is left out is `none`), and the events of the
-- sockets and the timer.
pub data Event : Type 0 where
  connect_message : Option String → Event
  disconnect_message : Event
  focus_message route_message position_exit_message : Option String → Event
  command_message : Option Command → Event
  socket_open socket_close : ℕ → Event
  socket_error : ℕ → String → Event
  socket_message : ℕ → Wire → Event
  timer_fired : Event

module _ {J : Type 0} (ready : ℕ → ReadyState) (accepts : String → Bool)
    (parse : List ℕ → String ⊎ J) where
  -- `case "DISCONNECT"`
  unfoldable pub disconnect : Worker → Worker × List (Effect J)
  unfolding teardown_socket
  disconnect s =
      let (s', closes) =
        teardown_socket ready (record s { timer = false; attempts = 0; pending = [] }) in
      (s', (if s.timer then clear_timer ∷ [] else []) ++ closes)

  -- `case "COMMAND"`
  unfoldable pub on_command : Option Command → Worker → Worker × List (Effect J)
  unfolding queue_command send_now
  on_command none s = (s, post_command_failed ∷ [])
  on_command (some c) s =
      let s' = record s { pending = queue_command c s.pending } in
      (s', send_now ready (command_frame c) s')

  unfoldable pub step : Event → Worker → Worker × List (Effect J)
  unfolding connect disconnect send_focus send_route send_position_exit on_command on_open on_close
      on_error on_message on_timer
  step (connect_message url) s = connect ready accepts (or_value url "") s
  step disconnect_message s = disconnect s
  step (focus_message symbol) s = send_focus ready (or_value symbol "") s
  step (route_message route) s = send_route ready (or_value route "") s
  step (position_exit_message symbol) s = send_position_exit ready (or_value symbol "") s
  step (command_message c) s = on_command c s
  step (socket_open g) s = on_open ready g s
  step (socket_close g) s = on_close ready g s
  step (socket_error g error) s = on_error ready g error s
  step (socket_message g wire) s = on_message parse wire s
  step timer_fired s = on_timer ready accepts s
