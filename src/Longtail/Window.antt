-- ===== src/Longtail/Window.antt =====
-- The chart's window of longtail.ts, and the history that replaces it. `sample` is what
-- `captureSample` returns, and `now` is `Date.now()`.
pub mod Kept
use symm.Base.{
  ℕ, Bool, true, false, not, ◌&&◌, Option, none, some, List, [], ◌∷◌, if◌then◌else◌, or_value,
  is_some,
}
use symm.Base.Number.{Number, of_ℕ, number_lt}
use symm.Base.Json.{Json, arr, items}
use symm.Circular.{Circular, create, push, values, push_all}
use symm.DeskRow.{Host}
use symm.Longtail.{LongtailSample}
use symm.Longtail.History.{history_sample}

abbrev pub chart_samples : ℕ
chart_samples = 240

abbrev pub sample_every_ms : Number
sample_every_ms = of_ℕ 5000

-- The variables of the module and the two fields of the store that it writes.
pub record Recorder : Type 0 where
  pub chart_window : Circular LongtailSample
  pub history_buffer : Option (Circular LongtailSample)
  pub samples : List LongtailSample
  pub last_sample_at : Number

-- The samples of a buffer; every slot that `values` reads was written.
abbrev pub written : {A : Type 0} → List (Option A) → List A
written [] = []
written (none ∷ slots) = written slots
written (some a ∷ slots) = a ∷ written slots

abbrev pub samples_of : Circular LongtailSample → List LongtailSample
samples_of c = written (values c)

abbrev pub last_at : List LongtailSample → Number
last_at [] = of_ℕ 0
last_at (sample ∷ []) = sample.at
last_at (sample ∷ next ∷ samples) = last_at (next ∷ samples)

-- `publishWindow`
unfoldable pub publish_window : Option Number → Recorder → Recorder
publish_window at r = record r {
  samples = samples_of r.chart_window;
  last_sample_at = or_value at (last_at (samples_of r.chart_window));
}

-- `installWindow`
unfoldable pub install_window : List LongtailSample → Recorder → Recorder
unfolding publish_window
install_window rows r =
    publish_window none (record r { chart_window = push_all rows (create chart_samples) })

-- `pushSample`
unfoldable pub push_sample : LongtailSample → Recorder → Recorder
unfolding publish_window
push_sample sample r =
    publish_window (some sample.at) (record r { chart_window = push sample r.chart_window })

-- `sort((a, b) => a.at - b.at)` of samples with finite times, which keeps those of one time in order.
abbrev pub insert_sample : LongtailSample → List LongtailSample → List LongtailSample
insert_sample sample [] = sample ∷ []
insert_sample sample (next ∷ samples) =
    if number_lt next.at sample.at
    then next ∷ insert_sample sample samples
    else sample ∷ next ∷ samples

unfoldable pub sort_samples : List LongtailSample → List LongtailSample
sort_samples [] = []
sort_samples (sample ∷ samples) = insert_sample sample (sort_samples samples)

-- `beginLongtailHistory`
unfoldable pub begin_history : Recorder → Recorder
begin_history r = record r { history_buffer = some (create chart_samples) }

-- `maybeRecordLongtailSample`; `recent` is `now - lastSampleAt < SAMPLE_EVERY_MS`
unfoldable pub maybe_record : Bool → LongtailSample → Recorder → Recorder
unfolding push_sample
maybe_record recent sample r = elim r.samples [
  | [] ↦ push_sample sample r
  | s ∷ samples ↦ if recent then r else push_sample sample r
]

module _ (host : Host) where
  -- The samples that a payload has.
  unfoldable pub accepted : List Json → List LongtailSample
  accepted [] = []
  accepted (v ∷ vs) = elim (history_sample host v) [
    | none ↦ accepted vs
    | some sample ↦ sample ∷ accepted vs
  ]

  -- `ingestLongtailHistory`
  unfoldable pub ingest_history : Json → Recorder → Recorder × Bool
  ingest_history (arr payload) r = elim r.history_buffer [
    | none ↦ (r, false)
    | some buffer ↦ elim (accepted (items payload)) [
      | [] ↦ (r, false)
      | sample ∷ samples ↦
          (record r { history_buffer = some (push_all (sample ∷ samples) buffer) }, true)
    ]
  ]
  ingest_history payload r = (r, false)

  -- `endLongtailHistory`
  unfoldable pub end_history : Number → LongtailSample → Recorder → Recorder
  unfolding sort_samples install_window maybe_record
  end_history now sample r = elim r.history_buffer [
    | none ↦ r
    | some buffer ↦ elim (sort_samples (samples_of buffer)) [
      | [] ↦ record r { history_buffer = none }
      | first ∷ rest ↦
          let installed = install_window (first ∷ rest) (record r { history_buffer = none }) in
          let recent = number_lt (host.sub now installed.last_sample_at) sample_every_ms in
          maybe_record recent sample installed
    ]
  ]
