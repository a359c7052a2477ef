-- ===== src/Worker/Queue.antt =====
-- The command queue: what it holds after any commands, and what a new connection is sent.
use symm.Base.{
  ℕ, ◌≤◌, ◌≡◌, refl, sym, ◌∙◌, Bool, true, false, not, ◌&&◌, List, [], ◌∷◌, ◌++◌, append_assoc,
  append-nil, arith, if◌then◌else◌, keep, keep-append, keep_idem, length-append, any, length,
}
use symm.Worker.{Command, is_hindsight, queue_command}

-- The queue after a list of commands.
unfoldable pub queue_all : List Command → List Command → List Command
queue_all [] pending = pending
queue_all (c ∷ cs) pending = queue_all cs (queue_command c pending)

-- The commands in order, without each hindsight request that a later one replaces.
abbrev pub without_replaced : List Command → List Command
without_replaced [] = []
without_replaced (c ∷ cs) =
    if is_hindsight c && any is_hindsight cs then without_replaced cs else c ∷ without_replaced cs

abbrev pub is_other : Command → Bool
is_other c = not (is_hindsight c)

unfoldable pub count_hindsight : List Command → ℕ
count_hindsight cs = length (keep is_hindsight cs)

-- What of the old queue is left after some commands.
queue_all_lem :
    (cs pending : List Command)
    → queue_all cs pending
      ≡ (if any is_hindsight cs then keep is_other pending else pending) ++ without_replaced cs
unfolding queue_all queue_command
queue_all_lem [] pending = sym (append-nil pending)
queue_all_lem (c ∷ cs) pending = ground (
  arith,
  queue_all_lem cs (queue_command c pending),
  keep-append is_other pending (c ∷ []),
  keep-append is_other (keep is_other pending) (c ∷ []),
  keep_idem is_other pending,
  append-nil (keep is_other pending),
  append_assoc pending (c ∷ []) (without_replaced cs),
  append_assoc (keep is_other pending) (c ∷ []) (without_replaced cs),
)

keep_disjoint : (cs : List Command) → keep is_hindsight (keep is_other cs) ≡ []
keep_disjoint [] = refl
keep_disjoint (c ∷ cs) = ground (arith, keep_disjoint cs)

-- A queue of at most one hindsight request has at most one after a command.
pub queue_command-count :
    (c : Command) (pending : List Command)
    → count_hindsight pending ≤ 1
    → count_hindsight (queue_command c pending) ≤ 1
unfolding count_hindsight queue_command
queue_command-count c pending h = ground (
  arith,
  keep-append is_hindsight pending (c ∷ []),
  keep-append is_hindsight (keep is_other pending) (c ∷ []),
  keep_disjoint pending,
  length-append (keep is_hindsight pending) (keep is_hindsight (c ∷ [])),
)

-- From an empty queue any commands leave themselves, in order, less each hindsight request that a
-- later one replaces.
pub queue_all-empty : (cs : List Command) → queue_all cs [] ≡ without_replaced cs
queue_all-empty cs = queue_all_lem cs [] ∙ drop_empty (any is_hindsight cs)
  where
    drop_empty : (b : Bool) → (if b then [] else []) ++ without_replaced cs ≡ without_replaced cs
    drop_empty true = refl
    drop_empty false = refl
