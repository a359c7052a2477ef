-- ===== src/Worker/Traces/Listeners.antt =====
-- The other listeners make no socket.
use symm.Base.{
  ℕ, ◌≤◌, ◌≡◌, String, Bool, Option, none, some, List, [], arith, ◌⊎◌, inl, inr, Option-cases,
}
use symm.Worker.{
  Worker, Command, Frame, Wire, ReadyState, route_frame, on_command, on_open, on_close, on_error,
  on_message, send_now, flush_commands,
}
use symm.Worker.Queue.{count_hindsight, queue_command-count}
use symm.Worker.Traces.{made_by}
use symm.Worker.Traces.Quiet.{IsQuiet, made_by-append, made_by-sends}

module _ {J : Type 0} (accepts : String → Bool) (parse : List ℕ → String ⊎ J) where
  pub send_now-made :
      (ready : ℕ → ReadyState) (f : Frame) (s : Worker) → made_by {J = J} (send_now ready f s) ≡ []
  unfolding made_by send_now
  send_now-made ready f s = ground arith

  pub flush-made :
      (ready : ℕ → ReadyState) (s : Worker) → made_by {J = J} (flush_commands ready s) ≡ []
  unfolding made_by flush_commands
  flush-made ready s = elim (Option-cases s.socket) [
    | inl unset ↦ ground arith
    | inr (g, set) ↦ ground (arith, made_by-sends J g s.pending)
  ]

  module _ (ready : ℕ → ReadyState) (s : Worker) where
    pub on_open-IsQuiet : (g : ℕ) → IsQuiet {J = J} s (on_open ready g s)
    unfolding on_open made_by
    on_open-IsQuiet g =
        let s' : Worker = record s { attempts = 0 } in
        ground (
          arith,
          send_now-made ready (route_frame s.route) s',
          flush-made ready s',
          made_by-append (send_now ready (route_frame s.route) s') (flush_commands ready s'),
        )

    pub on_close-IsQuiet : (g : ℕ) → IsQuiet {J = J} s (on_close ready g s)
    unfolding on_close made_by
    on_close-IsQuiet g = ground arith

    pub on_error-IsQuiet : (g : ℕ) (error : String) → IsQuiet {J = J} s (on_error ready g error s)
    unfolding on_error made_by
    on_error-IsQuiet g error = ground arith

    pub on_message-IsQuiet : (wire : Wire) → IsQuiet {J = J} s (on_message parse wire s)
    unfolding on_message made_by
    on_message-IsQuiet wire = ground arith

    pub on_command-IsQuiet :
        (c : Option Command) → IsQuiet {J = J} s (on_command ready accepts parse c s)
    unfolding on_command made_by
    on_command-IsQuiet c = ground arith

    -- These listeners leave the timer and the queue alone.
    pub on_open-kept :
        (g : ℕ)
        → ((on_open {J = J} ready g s).0.timer ≡ s.timer)
          × ((on_open {J = J} ready g s).0.pending ≡ s.pending)
    unfolding on_open
    on_open-kept g = ground arith

    pub on_error-kept : (g : ℕ) (error : String) → (on_error {J = J} ready g error s).0 ≡ s
    unfolding on_error
    on_error-kept g error = ground arith

    pub on_message-kept : (wire : Wire) → (on_message parse wire s).0 ≡ s
    unfolding on_message
    on_message-kept wire = ground arith

    pub on_close-kept : (g : ℕ) → (on_close {J = J} ready g s).0.pending ≡ s.pending
    unfolding on_close
    on_close-kept g = ground arith

    pub on_command-kept :
        (c : Option Command) → (on_command ready accepts parse c s).0.timer ≡ s.timer
    unfolding on_command
    on_command-kept c = ground arith

    pub on_command-one :
        (c : Option Command)
        → count_hindsight s.pending ≤ 1
        → count_hindsight (on_command ready accepts parse c s).0.pending ≤ 1
    unfolding on_command
    on_command-one none h = h
    on_command-one (some c) h = queue_command-count c s.pending h
