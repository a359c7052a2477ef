-- ===== src/Worker/Traces/Quiet.antt =====
-- Events that make no socket.
use symm.Base.{ℕ, ◌≤◌, ◌≡◌, ◌≢◌, refl, true, List, [], ◌∷◌, ◌++◌, map, All-imp}
use symm.Worker.{Worker, Command, Effect, send, command_frame, make_socket}
use symm.Worker.Queue.{count_hindsight}
use symm.Worker.Traces.{made_by, World, IsPlaced, IsConsistent}

pub made_by-sends :
    (J : Type 0) (g : ℕ) (cs : List Command)
    → made_by {J = J} (map (λ c. send g (command_frame c)) cs) ≡ []
unfolding made_by
made_by-sends J g [] = refl
made_by-sends J g (c ∷ cs) = made_by-sends J g cs

module _ {J : Type 0} where
  -- What an event that makes no socket leaves alone.
  pub record IsQuiet (s : Worker) (r : Worker × List (Effect J)) : Type 0 where
    pub same_socket : r.0.socket ≡ s.socket
    pub same_generation : r.0.generation ≡ s.generation
    pub same_url : r.0.connect_url ≡ s.connect_url
    pub none_made : made_by r.1 ≡ []

  pub made_by-append : (es fs : List (Effect J)) → made_by es ≡ [] → made_by (es ++ fs) ≡ made_by fs
  unfolding made_by
  made_by-append [] fs h = refl
  made_by-append (make_socket g url ∷ es) fs h = cc
  made_by-append (e ∷ es) fs h = made_by-append es fs h

  pub quiet-IsConsistent :
      (w : World) (r : Worker × List (Effect J))
      → IsConsistent w
      → IsQuiet w.worker r
      → (r.0.timer ≡ true → r.0.connect_url ≢ "")
      → count_hindsight r.0.pending ≤ 1
      → IsConsistent (record { worker = r.0; made = made_by r.1 ++ w.made })
  quiet-IsConsistent w r h q timer queue = record {
    current = rw (q.same_socket, q.same_generation) h.current;
    placed = rw q.none_made (
        All-imp (IsPlaced w.worker) (IsPlaced r.0) w.made
          (λ g p. rw (q.same_socket, q.same_generation) p) h.placed);
    url_of_made = rw (q.none_made, q.same_url) h.url_of_made;
    url_of_timer = timer;
    one_hindsight = queue;
  }
