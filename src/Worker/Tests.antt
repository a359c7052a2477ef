-- ===== src/Worker/Tests.antt =====
-- Runs of ws-worker.ts.
use symm.Base.{
  ℕ, ◌+◌, ◌*◌, ◌≤◌, ◌≡◌, ◌≢◌, ◌⊎◌, inl, inr, refl, arith, String, Bool, true, false, none, some,
  List, [], ◌∷◌, ◌++◌, map, if◌then◌else◌, ◌==◌, any, eqb, not,
}
use symm.Worker.{
  Event, Worker, Command, ReadyState, connecting, opened, shut, post_online, post_offline, send,
  command_frame, route_frame, make_socket, close_socket, set_timer, connect_message,
  disconnect_message, socket_open, socket_close, socket_error, timer_fired, step, initial, connect,
  teardown_socket, reconnect_delay,
}
use symm.Worker.Queue.{queue_all, without_replaced, queue_all-empty}
use symm.Worker.Links.{run_commands, open_replays}
use symm.Worker.Reconnect.{
  reconnect_delay_bounds, reconnects, stale_timer, disconnect_silent, cleared_by, closed_by, run,
}
use symm.Worker.Traces.{made_by, World, Reach, start, next, act, after, IsConsistent}
use symm.Worker.Traces.Invariant.{Reach-IsConsistent, superseded_silent}

abbrev all_up : ℕ → ReadyState
all_up g = opened

abbrev all_connecting : ℕ → ReadyState
all_connecting g = connecting

abbrev all_shut : ℕ → ReadyState
all_shut g = shut

abbrev accepts : String → Bool
accepts url = not (url == "")

-- A reader of one-byte envelopes.
abbrev parse : List ℕ → String ⊎ ℕ
parse [] = inl "empty"
parse (b ∷ []) = inr b
parse (b ∷ c ∷ bytes) = inl "long"

abbrev focus : Command
focus = record { kind = "focus"; body = "" }

abbrev hindsight : String → Command
hindsight body = record { kind = "hindsight"; body = body }

abbrev asked : List Command
asked = hindsight "old" ∷ focus ∷ hindsight "new" ∷ []

-- A worker whose second socket is being connected.
abbrev linking : Worker
linking = record initial { socket = some 2; connect_url = "ws://hub"; generation = 2 }

abbrev waiting : Worker
waiting = record linking { timer = true }

queued_from_empty : queue_all asked [] ≡ without_replaced asked
queued_from_empty = queue_all-empty asked

replaced : without_replaced asked ≡ focus ∷ hindsight "new" ∷ []
replaced = refl

open_replays_example :
    let (queued, sent) = run_commands all_connecting accepts parse asked linking in
    (sent ≡ [])
    × ((step all_up accepts parse (socket_open 2) queued).1
        ≡ post_online
          ∷ ((if linking.route == "" then [] else send 2 (route_frame linking.route) ∷ [])
              ++ map (λ c. send 2 (command_frame c)) (without_replaced asked)))
open_replays_example =
    open_replays all_connecting all_up accepts parse asked linking 2 refl refl refl refl refl

reconnect_delay_bounds_example :
    (500 ≤ reconnect_delay 4)
    × (reconnect_delay 4 ≤ 10_000)
    × (reconnect_delay 4 ≤ reconnect_delay (4 + 1))
    × ((reconnect_delay (4 + 1) ≡ 2 * reconnect_delay 4) ⊎ (reconnect_delay (4 + 1) ≡ 10_000))
reconnect_delay_bounds_example = reconnect_delay_bounds 4

reconnects_example :
    let (s1, lost) = step all_shut accepts parse (socket_close 2) linking in
    let (s2, found) = step all_shut accepts parse timer_fired s1 in
    (lost ≡ post_offline ∷ set_timer (reconnect_delay linking.attempts) ∷ [])
    × (s1.timer ≡ true)
    × (found ≡ (teardown_socket all_shut s1).1 ++ make_socket (2 + 1) linking.connect_url ∷ [])
    × (s2 ≡ record linking {
      socket = some (2 + 1);
      attempts = linking.attempts + 1;
      generation = 2 + 1;
    })
reconnects_example = reconnects accepts parse all_shut all_shut 2 linking refl refl refl refl

stale_timer_example :
    let (s1, _) = step all_shut accepts parse (connect_message (some "ws://hub")) waiting in
    let (s2, es) = step all_up accepts parse timer_fired s1 in
    (s1.timer ≡ true)
    × (s1.socket ≡ some (waiting.generation + 1))
    × (es
        ≡ close_socket (waiting.generation + 1)
          ∷ make_socket (waiting.generation + 1 + 1) "ws://hub"
          ∷ [])
stale_timer_example =
    stale_timer accepts parse all_shut all_up "ws://hub" waiting refl refl refl refl

abbrev late : List ((ℕ → ReadyState) × Event)
late = (all_up, socket_open 2) ∷ (all_shut, socket_close 2) ∷ (all_shut, socket_error 1 "gone") ∷ []

disconnect_silent_example :
    let (s', done) = step all_up accepts parse disconnect_message waiting in
    (done ≡ cleared_by accepts parse waiting.timer ++ closed_by accepts parse all_up waiting.socket)
    × (s'.timer ≡ false)
    × (s'.pending ≡ [])
    × (s'.socket ≡ none)
    × (s'.attempts ≡ 0)
    × (run accepts parse late s' ≡ (s', []))
disconnect_silent_example =
    disconnect_silent accepts parse all_up waiting late
      (omega arith, (omega arith, (omega arith, tt)))

-- Two connects, one after the other: the first socket is replaced.
abbrev at_start : World
at_start = record { worker = initial; made = [] }

abbrev once : World
once = after accepts parse all_connecting (connect_message (some "ws://a")) at_start

abbrev twice : World
twice = after accepts parse all_up (connect_message (some "ws://b")) once

twice_reached : Reach accepts parse twice
twice_reached =
    next (next start (act all_connecting (connect_message (some "ws://a")) tt))
      (act all_up (connect_message (some "ws://b")) tt)

first_made : any (eqb 1) twice.made ≡ true
unfolding step connect teardown_socket made_by
first_made = refl

first_replaced : twice.worker.socket ≢ some 1
unfolding step connect teardown_socket
first_replaced e = ground (arith, e)

Reach-IsConsistent_example : IsConsistent twice
Reach-IsConsistent_example = Reach-IsConsistent accepts parse twice_reached

superseded_silent_example :
    (step all_up accepts parse (socket_open 1) twice.worker ≡ (twice.worker, []))
    × (step all_up accepts parse (socket_close 1) twice.worker ≡ (twice.worker, []))
    × (step all_up accepts parse (socket_error 1 "gone") twice.worker ≡ (twice.worker, []))
superseded_silent_example =
    superseded_silent accepts parse all_up 1 "gone" twice_reached first_made first_replaced
