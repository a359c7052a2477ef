-- ===== src/Worker/Links.antt =====
-- Which socket may speak for the worker: stale listeners, `DISCONNECT`, and what a new connection
-- is sent.
use symm.Base.{
  ℕ, ◌≡◌, ◌≢◌, refl, ap, ◌∙◌, String, Bool, false, Option, none, some, List, [], ◌∷◌, ◌++◌, map,
  arith, if◌then◌else◌, ◌==◌, ◌⊎◌,
}
use symm.Worker.{
  Worker, Command, ReadyState, opened, Effect, post_online, send, route_frame, command_frame,
  socket_open, socket_close, socket_error, command_message, step, on_open, send_now, queue_command,
  is_open,
}
use symm.Worker.Queue.{queue_all, queue_all-empty, without_replaced}

-- No socket, or one that is not open.
abbrev pub IsDown : (ℕ → ReadyState) → Option ℕ → Type 0
IsDown ready none = Unit
IsDown ready (some g) = is_open (ready g) ≡ false

IsDown-of_linked :
    (ready : ℕ → ReadyState) (link : Option ℕ) (g : ℕ)
    → link ≡ some g
    → is_open (ready g) ≡ false
    → IsDown ready link
IsDown-of_linked ready none g e h = tt
IsDown-of_linked ready (some k) g e h = ground arith

module _ {J : Type 0} (ready : ℕ → ReadyState) (accepts : String → Bool)
    (parse : List ℕ → String ⊎ J) where
  -- The listeners of a socket that is no longer the current one do nothing when it opens, closes or
  -- fails: no state changes, nothing is posted, sent or scheduled.
  pub stale_silent :
      (g : ℕ) (error : String) (s : Worker)
      → g ≢ s.generation
      → (step ready accepts parse (socket_open g) s ≡ (s, []))
        × (step ready accepts parse (socket_close g) s ≡ (s, []))
        × (step ready accepts parse (socket_error g error) s ≡ (s, []))
  unfolding step
  stale_silent g error s stale = (ground arith, ground arith, ground arith)

  -- The state after some commands, and what they made the worker do.
  pub run_commands : List Command → Worker → Worker × List (Effect J)
  run_commands [] s = (s, [])
  run_commands (c ∷ cs) s =
      let (s', now) = step ready accepts parse (command_message (some c)) s in
      let (end, later) = run_commands cs s' in (end, now ++ later)

  abbrev pub IsOffline : Worker → Type 0
  IsOffline s = IsDown ready s.socket

  send_now-offline :
      (c : Command) (s : Worker) → IsOffline s → send_now {J = J} ready (command_frame c) s ≡ []
  unfolding send_now
  send_now-offline c s off = ground arith

  pub run_commands-offline :
      (cs : List Command) (s : Worker)
      → IsOffline s
      → run_commands cs s ≡ (record s { pending = queue_all cs s.pending }, [])
  unfolding run_commands step queue_all
  run_commands-offline [] s off = refl
  run_commands-offline (c ∷ cs) s off =
      let s' : Worker = record s { pending = queue_command c s.pending } in
      ground (arith, run_commands-offline cs s' off, send_now-offline c s' off)

  -- What the `open` listener of the current socket sends.
  on_open-current :
      (s : Worker) (g : ℕ)
      → s.generation ≡ g
      → s.socket ≡ some g
      → ready g ≡ opened
      → on_open {J = J} ready g s ≡ (
        record s { attempts = 0 },
        post_online
            ∷ ((if s.route == "" then [] else send g (route_frame s.route) ∷ [])
                ++ map (λ c. send g (command_frame c)) s.pending),
      )
  unfolding on_open
  on_open-current s g current linked up = ground arith

-- Commands given to an empty queue before the current socket is up are sent when it opens, in the order given and after
-- the route, without each hindsight request that a later one replaced; nothing is sent before.
pub open_replays :
    {J : Type 0} (before after : ℕ → ReadyState) (accepts : String → Bool)
    (parse : List ℕ → String ⊎ J) (cs : List Command) (s : Worker) (g : ℕ)
    → s.pending ≡ []
    → s.generation ≡ g
    → s.socket ≡ some g
    → is_open (before g) ≡ false
    → after g ≡ opened
    → let (queued, sent) = run_commands before accepts parse cs s in
      (sent ≡ [])
      × ((step after accepts parse (socket_open g) queued).1
          ≡ post_online
            ∷ ((if s.route == "" then [] else send g (route_frame s.route) ∷ [])
                ++ map (λ c. send g (command_frame c)) (without_replaced cs)))
unfolding step
open_replays {J} before after accepts parse cs s g empty current linked down up =
    let queued : Worker = record s { pending = queue_all cs s.pending } in
    let whole : queue_all cs s.pending ≡ without_replaced cs =
      ap (queue_all cs) empty ∙ queue_all-empty cs in
    let run =
      run_commands-offline before accepts parse cs s
        (IsDown-of_linked before s.socket g linked down) in
    rw run (
      refl,
      ap (λ r. r.1) (on_open-current after accepts parse queued g current linked up) ∙ rw whole,
    )
