-- ===== src/Longtail/Exits/Mix.antt =====
-- The mix of exits counts each trigger once.
use symm.Base.{ℕ, ◌+◌, String, ◌≡◌, List, [], ◌∷◌, ◌++◌}
use symm.Base.Json.{Fields}
use symm.Book.{Book}
use symm.Longtail.{ExitMix}
use symm.Longtail.Exits.{profit, stop, policy, other, triggers_of}

abbrev pub buckets : ExitMix ℕ → ℕ
buckets mix = mix.profit + mix.stop + mix.policy + mix.other

-- All the triggers of a list of rows.
abbrev pub all_triggers : List Fields → List String
all_triggers [] = []
all_triggers (row ∷ rows) = triggers_of row ++ all_triggers rows

-- The totals of a mix that took `n` triggers more than another one.
record IsMore (n : ℕ) (before after : ExitMix ℕ) : Type 0 where
  total : after.total ≡ before.total + n
  sums : buckets after ≡ buckets before + n
