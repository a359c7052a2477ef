-- ===== src/Lib.antt =====
-- The data layer of the dashboard: what the browser keeps of the hub's frames, and the worker that
-- brings them.
--
-- The program's parts and how they interact. The worker (frontend/src/providers/ws-worker.ts) owns
-- the WebSocket to the hub, queues the page's commands and posts each JSON envelope to the page. The
-- page folds the rows of an envelope into keyed stores of ring buffers, and the listings of closed
-- lots and of the path book into the round trips and the explore filter.
--
-- - Base: booleans, lists, association lists, strings, JavaScript numbers, JSON values and sorting,
--   for all the parts. A finite number is an integer count of 2 ^ -1074.
-- - Circular: frontend/src/collections/circular.ts, `Circular` and `latestOf`. `create`, `push`,
--   `replace_tail`, `latest`, `values`, `for_each`, `physical`, `size` and `capacity` are the
--   methods, on a record of the closure's variables. Valid has the invariant, Reading and Retained
--   the window of slots, Tail the newest value, Visits `forEach`.
-- - Store: frontend/src/collections/store.ts, `createKeyedStore`. `push_row` is `push`, and
--   `update_frame` and `reset` are the actions. Sound, Series and Frames have its lemmas.
-- - Worker: frontend/src/providers/ws-worker.ts. A record of the module's variables and one function
--   for each listener, which returns the new state and the effects in order; `step` is one event.
--   Queue, Links, Reconnect and Traces have its lemmas, the last over every order of events.
-- - Explore: frontend/src/components/learning/explore-path.ts.
-- - Book: frontend/src/collections/book.ts, and `onBook` of frontend/src/components/book-readout.ts.
-- - Listing: frontend/src/hub/s3-prefix-compact.ts, the two readers of hub envelopes.
--   Listed says of a payload alone which numbers it stores and which keys it lists.
-- - Cognition: frontend/src/collections/cognition.ts, on a record of the store. Symbols is
--   `splitSymbol`, Regions the layers of regions and of rejected tokens, Policy the keys and
--   thresholds of the path book, Guards the type guards with the value that they let through,
--   and Frames the frames and path walks, which return the commands that they send. Schema describes
--   the values that the guards accept. The regular expressions are written out as functions on texts.
-- - DeskRow: frontend/src/components/book-readout.ts, with frontend/src/lib/stoploss.ts and
--   stop-telemetry.ts in Stop, and frontend/src/lib/desk-closed-lifecycle.ts and desk-tape-marks.ts
--   in Life. Totals is `executionTotals` and Readout `positionReadout`; Contract fills the interface
--   that Lifecycle has for the reader of desk rows.
-- - Longtail: frontend/src/collections/longtail.ts. Exits is `summarizeExits` and `topExitTriggers`,
--   Summaries the other summaries, Judge `verdict`, History the readers of a history's samples and
--   Window the chart's window, as a Circular, with the history that replaces it.
-- - GridPins: frontend/src/components/learning/grid-pins.ts, the table and what is made of it.
-- - Confidence: frontend/src/collections/confidence.ts. `ingest_confidence` takes the atom's frame and
--   returns the new one.
-- - Lifecycle: frontend/src/lib/lifecycle.ts. Capped is `storeLife`, History is
--   `ingestHistoryClosedBatch`, Positions is `ingestPositionFrame`, Desk `ingestDeskClosedLots`
--   and Stats `deskRowsForStats`; each of the first four takes the two maps of the module and returns
--   them with whether it publishes. Reader is what History and Desk ask of the reader of desk rows.
-- - Value: frontend/src/types/value.ts, the class and the two functions that join frames. Layers has
--   the tables of layers, Merge, Lit and Metrics what is proved of each part.
--
-- Bounds and fuel. The loop that evicts round trips runs on the number of round trips as fuel, and
-- every turn drops one, so the fuel does not run out before one of its two exits. Every other loop is
-- structural. Array indices and counters are natural numbers: the source's are small, and exact as
-- doubles.
--
-- Parameters: the state of each socket, the URLs that `new WebSocket` accepts, `JSON.parse` and
-- `BigInt(text)`; the decoding of the bytes of a layer, `Number(value)` and `toLowerCase`; for desk
-- rows a `Host` with the sums of doubles, the texts of numbers and the dates; and in Lifecycle the
-- reader of desk rows and `String(value)` of an id that is no text.
--
-- Not modelled: rendering, the samples and insights that longtail.ts makes of the live stores (its
-- `captureSample`, `seedFromClosedLots` and `buildInsights`) and its timer, the report of
-- the round trips, `layersUnder` of a value, the words of `buildStopChecks`, the signals of the store
-- library, and names of `Object.prototype` as keys of a plain table of thresholds or metrics (the
-- keyed store has them). In a store, nothing is said of what follows a walk that has left the tree by
-- such a name. The `fills` of a desk row are a list of records or missing, as they are typed: the
-- throw of `executionTotals` on a null fill, or on `fills` of another kind, is left out.
pub mod Base
pub mod Circular
pub mod Store
pub mod Worker
pub mod Explore
pub mod Book
pub mod Listing
pub mod Cognition
pub mod DeskRow
pub mod Longtail
pub mod GridPins
pub mod Confidence
pub mod Lifecycle
pub mod Value
