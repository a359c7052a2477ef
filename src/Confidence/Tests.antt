-- ===== src/Confidence/Tests.antt =====
-- Runs of confidence.ts.
use symm.Base.{false, List, [], ◌∷◌}
use symm.Base.Number.{nan}
use symm.Base.Json.{Json, null, bool, num, str, obj, arr, nil, field, end}
use symm.Confidence.{initial_frame}
use symm.Confidence.Sound.{IsSoundFrame, ingest_all, ingest_all-initial_frame}

-- A value that is no object, a ledger that is null, and one whose counts are of other types.
abbrev received : List Json
received =
    null
    ∷ obj (field "virtual" null end)
    ∷ obj (
        field "paper"
          (obj
            (field "active" (bool false) (field "closed" (num nan) (field "wins" (str "3") end))))
          end)
    ∷ arr nil
    ∷ []

ingest_all-initial_frame_example : IsSoundFrame (ingest_all received initial_frame)
ingest_all-initial_frame_example = ingest_all-initial_frame received
