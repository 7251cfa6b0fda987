-- ===== src/Lib.antt =====
-- The pure logic of the When I Off desktop client (desktop/src): the reading and checking of what a user
-- uploads or edits before it is sent to the backend, and what is shown of a trip.
--
-- Parts, each with the source that it models:
--
--   Api       desktop/src/api/schema.d.ts    the enums and records of the API that the client reads
--   Csv       desktop/src/schedules/csv.ts   a timetable file: Unicode (ktTrim, split), Long
--                                            (toLongOrNull), LocalTime (parseLocalTime), Row (parseRow),
--                                            File (parseScheduleCsv), Summary (summarize, countBy)
--   Cycles    desktop/src/signals/cycleRules.ts  drafts and requests of signal cycles; Validate
--                                            (validateCycleRequests), Effective (effectiveCycle)
--   Legs      desktop/src/legs/legRules.ts   drafts and requests of a route's legs; Validate
--                                            (validateLegRequests, validateDrafts), Move (moveDraft),
--                                            Crossings (the crossings of a walk)
--   Trips     desktop/src/trips/             Timeline (buildTimeline, summarizeTrip of timeline.ts), Ticket
--                                            (ticketStamp, ticketSegments of ticket.ts; Whole: buildTicket), Corrections
--                                            (tripPatch, attemptPatch of corrections.ts)
--   NextDepartures  desktop/src/schedules/next.ts  knownTransit, stopCandidates, directionCandidates; Query
--                                            (draftFromRows, nextQuery and the texts)
--   Map       desktop/src/map/overlay.ts, lineTone.ts, types.ts  the markers and lines of a map
--   Ops       desktop/src/ops/ops.ts         the failures, the quota and the server without calls
--   Kst       desktop/src/kst.ts             clock inputs and dates in Korean time
--   Upload    desktop/src/pages/ScheduleUpload.tsx  the page that uploads a timetable, as a state and events
--   RouteEdit desktop/src/pages/RouteEditPage.tsx  the editor of a route's legs: its operations; Events (the
--                                            events of the page and the answers to a save)
--   Queries   desktop/src/api/queries.ts     the hooks (keys and requests); Client (the query cache), Mutations
--                                            (their requests, and what their success does to the cache)
--   Session   desktop/src/api/client.ts, auth/token.ts, auth/RequireAuth.tsx, context.ts, pages/LoginPage.tsx
--                                            the token, the handling of 401, the retry rule, the login
--   Recommendations  desktop/src/recommendations/history.ts  Reference (referenceRecommendation), Slots
--                                            (versionSlots), Table (buildTableRows), Ends
--                                            (lastIndexWithValue, lastActualPoint, seriesEnds)
--   Calibration  desktop/src/calibration/chain.ts  resolveWalkingSpeed, poolStats and the fallbacks
--   Target    desktop/src/target/defaultTarget.ts  a route's settings and their PATCH
--   Auth      desktop/src/auth/returnPath.ts safeReturnPath
--   Prelude   what the parts share: lists and tests over native numbers, stable sorting, decimal text,
--             JavaScript's texts and numbers
--   Tests     the models on concrete inputs
--
-- How the parts interact: the backend's responses (Api) become drafts (Cycles, Legs, Target), the drafts
-- are edited (Move, toggleDayType) and become requests, and the requests are checked before they are sent.
-- RouteEdit edits the drafts of Legs and sends them as its requests, after its checks.
-- Upload reads a file with Csv, and gives its rows to the candidates and the draft of NextDepartures. What is
-- shown comes through the hooks of Queries and their cache, which the mutations keep true; every request
-- and every answer passes the token and the 401 of Session, which uses Auth and the cache. Trips reads the
-- legs of a route and the attempts of a trip.
--
-- Conventions. A text is its list of UTF-16 code units. A `number` that the code tests is a `Number`: NaN,
-- an infinity, or an exact fraction, of which every finite double is one; ids, counts and indices are ℕ.
-- `null` and `undefined` are both `none`. A list of error texts is the list of problems with the values
-- that the texts hold. A thrown RowError is the `error` case of a result. A `Map` is its list of entries
-- and a `Set` its list of elements, in the order of insertion. The module's counter of new keys goes in
-- and comes out. Every loop runs over a list or a text, so nothing needs fuel; the
-- retries of a query are a relation, and it is shown that they end. What is asynchronous, the reading of a
-- file, an upload and its answer, is a list of what is awaited, from which a step takes any. Of uploads the page
-- hears only the end of the one that it waits for, the last one, until another choice of a file resets it. The
-- headers of a request may refuse a value, at which `onRequest` throws.
--
-- Parameters. The doubles that the calibration adds and divides are values of `Doubles`, a record of their
-- operations. What the JavaScript engine knows and the sources only call is an argument: the Unicode
-- tables (`Unicode`, with what the standard says of ASCII in `IsUnicode`), Date.parse (`parse`; with
-- the other calls of Date that kst.ts makes it is `DateEngine`), `Number(text)`, and the two orders of
-- localeCompare (`newer`, with `IsNewer`, and `date_le`). The query cache (`QueryClient`), the local storage,
-- the headers and the router (`Browser`) are records of operations, with what their documentation says of
-- them in `IsQueryClient` and `IsBrowser`.
--
-- Not modelled: floating-point arithmetic (waitPreview, distances, means), display texts and
-- labels, fetch and React's rendering; the backend, the analytics and the phone application, which are
-- written in other languages; and the series and
-- axes of the charts.
pub mod Prelude
pub mod Api
pub mod Calibration
pub mod Csv
pub mod Cycles
pub mod Legs
pub mod Trips
pub mod Kst
pub mod Map
pub mod NextDepartures
pub mod Target
pub mod Recommendations
pub mod Auth
pub mod Ops
pub mod Queries
pub mod RouteEdit
pub mod Session
pub mod Upload
pub mod Tests
