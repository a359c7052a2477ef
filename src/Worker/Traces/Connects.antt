-- ===== src/Worker/Traces/Connects.antt =====
-- `connect` and `DISCONNECT` keep the worker consistent.
use symm.Base.{
  ℕ, ◌+◌, ◌<◌, ◌≡◌, refl, String, Bool, true, false, List, [], ◌∷◌, ◌++◌, arith, ◌==◌, ◌⊎◌, inl,
  inr, All, All-imp, Bool-cases, eq_iff,
}
use symm.Worker.{
  Worker, ReadyState, Effect, make_socket, uncaught, connect, disconnect, teardown_socket,
}
use symm.Worker.Queue.{count_hindsight}
use symm.Worker.Traces.{made_by, World, IsPlaced, IsConsistent, linked, unlinked}
use symm.Worker.Traces.Quiet.{made_by-append}

module _ {J : Type 0} (accepts : String → Bool) (parse : List ℕ → String ⊎ J) where
  -- `connect` and `disconnect` leave the old socket to a past generation.
  IsPlaced-before :
      (s s' : Worker) (gs : List ℕ)
      → s'.generation ≡ s.generation + 1
      → All (IsPlaced s) gs
      → All (IsPlaced s') gs
  IsPlaced-before s s' gs e = All-imp (IsPlaced s) (IsPlaced s') gs (λ g p. inl (past g p))
    where
      past : (g : ℕ) → IsPlaced s g → g < s'.generation
      past g (inl lt) = omega arith
      past g (inr (eq, link)) = omega arith

  closes_none :
      (ready : ℕ → ReadyState) (s : Worker) → made_by (teardown_socket {J = J} ready s).1 ≡ []
  unfolding made_by teardown_socket
  closes_none ready s = ground arith

  connect-blank :
      (ready : ℕ → ReadyState) (url : String) (s : Worker)
      → (url == "") ≡ true
      → connect {J = J} ready accepts url s ≡ (s, [])
  unfolding connect
  connect-blank ready url s blank = rw blank

  pub connect-accepted :
      (ready : ℕ → ReadyState) (url : String) (s : Worker)
      → (url == "") ≡ false
      → accepts url ≡ true
      → connect {J = J} ready accepts url s
        ≡ (linked url s, (teardown_socket ready s).1 ++ make_socket (s.generation + 1) url ∷ [])
  unfolding connect
  connect-accepted ready url s named fine = rw (named, fine)

  pub connect-refused :
      (ready : ℕ → ReadyState) (url : String) (s : Worker)
      → (url == "") ≡ false
      → accepts url ≡ false
      → connect {J = J} ready accepts url s
        ≡ (unlinked url s, (teardown_socket ready s).1 ++ uncaught ∷ [])
  unfolding connect
  connect-refused ready url s named bad = rw (named, bad)

  made_by-connect :
      (ready : ℕ → ReadyState) (s : Worker) (e : Effect J)
      → made_by ((teardown_socket ready s).1 ++ e ∷ []) ≡ made_by (e ∷ [])
  made_by-connect ready s e =
      made_by-append (teardown_socket ready s).1 (e ∷ []) (closes_none ready s)

  pub connect-IsConsistent :
      (ready : ℕ → ReadyState) (url : String) (w : World)
      → IsConsistent w
      → let (s, es) = connect {J = J} ready accepts url w.worker in
        IsConsistent (record { worker = s; made = made_by es ++ w.made })
  unfolding made_by
  connect-IsConsistent ready url w h = elim (Bool-cases (url == "")) [
    | inl blank ↦ rw (connect-blank ready url w.worker blank) h
    | inr named ↦ elim (Bool-cases (accepts url)) [
      | inl fine ↦
          rw
            (
              connect-accepted ready url w.worker named fine,
              made_by-connect ready w.worker (make_socket (w.worker.generation + 1) url),
            )
            (record {
              current = refl;
              placed = (
                inr (refl, refl),
                IsPlaced-before w.worker (linked url w.worker) w.made refl h.placed,
              );
              url_of_made = inr (ground (arith, eq_iff url ""));
              url_of_timer = λ t. ground (arith, eq_iff url "");
              one_hindsight = h.one_hindsight;
            })
      | inr bad ↦
          rw (connect-refused ready url w.worker named bad, made_by-connect ready w.worker uncaught)
            (record {
              current = tt;
              placed = IsPlaced-before w.worker (unlinked url w.worker) w.made refl h.placed;
              url_of_made = inr (ground (arith, eq_iff url ""));
              url_of_timer = λ t. ground (arith, eq_iff url "");
              one_hindsight = h.one_hindsight;
            })
    ]
  ]

  pub disconnect-IsConsistent :
      (ready : ℕ → ReadyState) (w : World)
      → IsConsistent w
      → let (s, es) = disconnect ready accepts parse w.worker in
        IsConsistent (record { worker = s; made = made_by es ++ w.made })
  unfolding disconnect made_by count_hindsight
  disconnect-IsConsistent ready w h = record {
    current = tt;
    placed =
        rw (quiet_effects ready w.worker) (
          IsPlaced-before w.worker (disconnect ready accepts parse w.worker).0 w.made refl
            h.placed);
    url_of_made = rw (quiet_effects ready w.worker) h.url_of_made;
    url_of_timer = λ t. cc;
    one_hindsight = omega arith;
  }
    where
      quiet_effects :
          (ready : ℕ → ReadyState) (s : Worker) → made_by (disconnect ready accepts parse s).1 ≡ []
      quiet_effects ready s = ground arith
