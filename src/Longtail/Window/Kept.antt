-- ===== src/Longtail/Window/Kept.antt =====
-- The window after samples are installed.
use symm.Base.{
  ℕ, ◌-◌, ◌≡◌, refl, ap, ◌∙◌, Option, some, List, [], ◌∷◌, ◌++◌, map, take_last, length, drop,
}
use symm.Circular.{Circular, create, values, push_all, read_from}
use symm.Circular.Valid.{create-IsValid}
use symm.Circular.Retained.{values-push_all}
use symm.Longtail.{LongtailSample}
use symm.Base.Json.{Json, arr, items}
use symm.DeskRow.{Host}
use symm.Longtail.Window.{
  ingest_history, accepted, Recorder, chart_samples, written, samples_of, publish_window,
  install_window,
}

written-map : (rows : List LongtailSample) → written (map some rows) ≡ rows
written-map [] = refl
written-map (row ∷ rows) = ap (λ l. row ∷ l) (written-map rows)

drop-map : (n : ℕ) (rows : List LongtailSample) → drop n (map some rows) ≡ map some (drop n rows)
drop-map ℕ.zero rows = refl
drop-map (ℕ.suc n) [] = refl
drop-map (ℕ.suc n) (row ∷ rows) = drop-map n rows

length-map :
    (rows : List LongtailSample) → length (map {B = Option LongtailSample} some rows) ≡ length rows
length-map [] = refl
length-map (row ∷ rows) = ap ℕ.suc (length-map rows)

written-take_last :
    (n : ℕ) (rows : List LongtailSample) → written (take_last n (map some rows)) ≡ take_last n rows
written-take_last n rows =
    ap (λ k. written (drop (k - n) (map some rows))) (length-map rows)
    ∙ ap written (drop-map (length rows - n) rows)
    ∙ written-map (take_last n rows)

-- A buffer that samples were pushed to from the start has the newest of them.
samples_of-push_all :
    (n : ℕ) (rows : List LongtailSample) → samples_of (push_all rows (create n)) ≡ take_last n rows
unfolding create values read_from
samples_of-push_all n rows =
    ap written (values-push_all rows (create n) (create-IsValid n)) ∙ written-take_last n rows

-- Installing samples shows the newest 240 of them, in their order.
pub install_window-samples :
    (rows : List LongtailSample) (r : Recorder)
    → (install_window rows r).samples ≡ take_last chart_samples rows
unfolding install_window publish_window
install_window-samples rows r = samples_of-push_all chart_samples rows

module _ (host : Host) where
  -- The payloads of a history, one after another.
  abbrev pub ingest_payloads : List Json → Recorder → Recorder
  ingest_payloads [] r = r
  ingest_payloads (payload ∷ payloads) r =
      ingest_payloads payloads (ingest_history host payload r).0

  abbrev pub samples_in : Json → List LongtailSample
  samples_in (arr payload) = accepted host (items payload)
  samples_in _ = []

  -- The samples that the payloads have, in the order of arrival.
  abbrev pub all_accepted : List Json → List LongtailSample
  all_accepted [] = []
  all_accepted (payload ∷ payloads) = samples_in payload ++ all_accepted payloads
