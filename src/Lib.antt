-- ===== src/Lib.antt =====
-- The report of a batch of container scans: how it is stored while it is built, and how it is read.
--
-- A scan's result is projected to plain records (go/report.go). A `batchBuilder` (go/store.go) turns
-- them into compact rows of numbers: texts and lists of texts are interned (go/payload.go), rows are
-- interned in tables (go/store.go) that stand on chunked storage (go/slabs.go), and the names of
-- vulnerabilities are grouped by a union-find forest (go/store.go). The finished `reportStore` is
-- read one property at a time through the C interface (go/abi.go).
--
-- The files, with the code that they model:
--   Prelude, Prelude/*  lists, integers and Boolean tests on the native numbers
--   Run, State          panics and results; state passing. `checked` of go/store.go
--   Text, Maps          Go's strings as bytes, comparable keys and maps as association lists
--   Slabs               `slabs[T]`: At, Append, Resize, Truncate (go/slabs.go). `Slabs/Rows` says which
--                       list of rows the chunks stand for, `Slabs/Laws` and `Slabs/Resize` are on
--                       the operations seen from that list
--   Table               `table[T].intern` (go/store.go); `Table/Laws` sees it as a list of
--                       distinct rows
--   Report              the records of go/report.go; `Report/Stored` the rows of go/payload.go and
--                       go/report.go
--   Payload             the tables of texts and words, `stringID`, `optionalString` (go/payload.go);
--                       `Payload/Words` is `internWords`, `Payload/Pack` are the pack methods, and
--                       `Payload/Unpack` the readers of go/payload_test.go. `Payload/Ledger` is the
--                       abstract view, a list of texts, a list of words, and for each fingerprint a
--                       map from lists to spans. `Chain`, `Intern`, `InternWords`, `Lists` and
--                       `Packs` see the operations that way, `Rules` composes such statements,
--                       `Known` and `Records` say what a ledger knows of a value, and `Collisions`,
--                       `Identity`, `Decode` and `RoundTrip` are on the code's results
--   Sorting             `slices.Sort` and `slices.Compact`; `Report/Orders` and `Report/Canonical` are
--                       `unique` and the canonical lists of go/report.go
--   Upstream            the fields of the scanner's types that the code reads, and its version
--                       libraries as a record of functions
--   Projection          `projectAdvisory`, `packageFixes`, `versionKnown` (go/report.go);
--                       `Projection/Advisories`, `Projection/Fixes` and
--                       `Projection/Verdict` are on them
--   Sink, Image         `projectionSink` and `projectImage` (go/store.go): a projection is the sequence
--                       of its calls and its end, as the calls return nothing. `Image/Order` is on
--                       the order of the calls
--   Builder             `occurrence`, `finding`, `add`, `merge` and `pendingImage` (go/store.go).
--                       `Builder/Split` takes the state apart, `Builder/Merging` and
--                       `Builder/Collected` compare calls, `Builder/Equivalence` compares `merge`
--                       with `add`, and `Builder/Total` is on collecting
--   Finish              `finishAliases` and `finish` (go/store.go); `Finish/Flat` and `Finish/Roots`
--                       are on the first loop
--   Store, Abi          `reportStore`, and `value` with its helpers (go/abi.go); `Abi/Kinds` has one
--                       function for each record kind, `Abi/Sequences` the laws of the index argument
--   Context, Alias      `checkContext` (go/indexes.go); `internAlias`, `root`, `preferred`, `union`
--                       (go/store.go). `Alias/Order` and `Alias/Forest` are on the order of names and
--                       on the links, `Alias/Root` on the loop of `root`, `Alias/Groups`,
--                       `Linking`, `Classes` and `Union` on the names that share a root
--   Index               `memberWindow`, `addIndexCount`, `prefixIndexCounts` (go/indexes.go);
--                       `Index/Sums` is on the running sums, `Index/Window` on the exchange of rows.
--                       `Index/Make` is `makeIndex`: `Edges` has the edges of a visit as a list,
--                       `Counting`, `Filling`, `Sinking`, `Compaction` and `Rows` are on its loops,
--                       `Ordering` on lists of values, `Built` on the index that it returns and
--                       `Reading` on that index and `indexValue` of go/abi.go. `Index/Visits` is the
--                       `visit` of `buildIndexes`, `Index/Plan` is `indexBuildOrder` and
--                       `Index/Build` is `buildIndexes`: `Emits` and `Linked` are on the edges of a
--                       report whose rows are linked, `Numbered` on the indexes without members,
--                       `Planned` and `Scheduled` on the plan, and `Finished` on the report that is left. `Lookup` says which edges a list of an
--                       index has, and `Affected` is on the index of the images that a package affects
--   Coordinator         `run` (go/operation.go) from the first jobs to the last merged image: the
--                       variables of the coordinator, its round, and a step for each running job,
--                       as any of them may end next. `Coordinator/Rounds` and `Steps` are on what
--                       the builder holds, `Jobs`, `Supply` and `Progress` on the jobs that run,
--                       `Returning` and `Completion` on rounds that return
--   Operation           `panicStatus`, `wait`, `release`, `finish` (go/operation.go) once the goroutine
--                       has ended, and `request` (go/bridge.go); `Operation/Delivery` is on sequences
--                       of such calls
--   Tests               concrete runs
--
-- Integers: an `int` is an integer or a natural number, for the lengths of slices that exist. A
-- `uint32` is a natural number that `checked` keeps below 2^32; where the code lets a `uint32` or the
-- `uint64` fingerprint wrap, the model takes the remainder. `Room` states how many rows the tables
-- must still have free; `slice_cost` and the costs of the records count what a packer can use.
--
-- Fuel: the search of a chain takes the number of its first entry, as the code links each entry to an
-- older one. The loop of `root` takes the number of names, as the code links a name to a preferred one.
-- The inner loop of `run` takes the number of images that wait, as each round removes one of them.
--
-- Panics are values of `Run`. The state at a panic is not modelled, since the operation gives up
-- the builder then. The capacity and sharing of Go's slices and strings are not modelled.
--
-- The other loops take the number of their rounds, which the code fixes before they start.
--
-- Sorting is written as insertion: where elements that compare equal are equal, every algorithm gives
-- the same list. `sort.Sort` is insertion by the `Less` and `Swap` of the window, and so polls the
-- context at each exchange. The address of an advisory is a number that comes with it. A context that
-- is never cancelled is `none`; with any other, `check_context` panics after some polls.
--
-- Not modelled: how the scanner fills its types, the channels and the recovery at the end of an
-- operation's goroutine, the C handles, the Python binding, and the scanner itself.
pub mod Prelude
pub mod Run
pub mod Text
pub mod Maps
pub mod Sorting
pub mod Slabs
pub mod Table
pub mod State
pub mod Report
pub mod Payload
pub mod Store
pub mod Abi
pub mod Context
pub mod Alias
pub mod Upstream
pub mod Projection
pub mod Index
pub mod Operation
pub mod Sink
pub mod Image
pub mod Builder
pub mod Finish
pub mod Coordinator
mod Tests
