-- ===== src/Coordinator.antt =====
-- `run` (go/operation.go): images are scanned by workers and merged in the order of the inputs.
--
-- A worker takes a job, scans, and sends its result, all in its own time; the coordinator receives
-- the results one by one. The scan is a parameter, a function of the request that may panic; the
-- worker's own polls of the context count as part of it. No more jobs run than there are workers,
-- so that each of them may be the next to end.
pub mod Jobs
pub mod Polls
pub mod Rounds
pub mod Supply
pub mod Progress
pub mod Steps
pub mod Returning
pub mod Completion
use osvpy.Prelude.{
  ◌<◌, ℕ, zero, suc, ◌+◌, ◌≡◌, Bool, true, false, ◌==◌, if◌then◌else◌, ltb, List, [], ◌∷◌, ◌++◌,
  length, some, none, min,
}
use osvpy.Text.{Text}
use osvpy.Maps.{Map, lookup, insert, nat_comparable}
use osvpy.Run.{Run, ok, hang, ◌>>=◌, index}
use osvpy.Context.{Context}
use osvpy.Report.{Slice, items}
use osvpy.Upstream.{Versions}
use osvpy.Operation.{Request}
use osvpy.Image.{Response}
use osvpy.Builder.{BatchBuilder, PendingImage, add, merge, pending_image, poll_context}

-- The variables of the coordinator. `running` are the jobs that have been sent and whose results
-- have not been received: in the channel, with a worker, or in the channel of results.
pub record RunState : Type 0 where
  pub builder : BatchBuilder
  pub admitted : ℕ
  pub merged : ℕ
  pub running : List ℕ
  pub pending : Map ℕ PendingImage

-- `delete(pending, key)`
unfoldable pub remove : ℕ → Map ℕ PendingImage → Map ℕ PendingImage
remove key [] = []
remove key (e ∷ m) = let rest = remove key m in if e.0 == key then rest else e ∷ rest

-- `operation` holds one context, which the coordinator polls through the builder's copy.
unfoldable pub admit : RunState → Run RunState
admit c = do
  builder ← poll_context c.builder
  ok (record c {
    builder = builder;
    running = c.running ++ c.admitted ∷ [];
    admitted = c.admitted + 1;
  })

-- The first admissions.
unfoldable pub admit_all : ℕ → RunState → Run RunState
unfolding admit
admit_all zero c = ok c
admit_all (suc n) c = admit c >>= λ c. admit_all n c

module _ (lib : Versions) (req : Request) (scan : Request → Run Response) where
  abbrev pub inputs : List Text
  inputs = items req.inputs

  -- The request of a worker, and its result.
  unfoldable pub scan_input : ℕ → Run (Request × Response)
  scan_input j = do
    image ← index inputs j
    let r = record req { image = image }
    resp ← scan r
    ok (r, resp)

  -- `merged++`, and another job if there is one.
  unfoldable pub next : RunState → Run RunState
  unfolding admit
  next c =
      let c' = record c { merged = c.merged + 1 } in
      let more = admit c' in if ltb c.admitted (length inputs) then more else ok c'

  -- The inner loop, which merges the images that waited for their turn. A round takes one of them
  -- away, so that their number is enough fuel.
  unfoldable pub drain : ℕ → RunState → Run RunState
  unfolding next remove
  drain zero c = elim (lookup c.merged c.pending) [ none ↦ ok c | some p ↦ hang ]
  drain (suc fuel) c = elim (lookup c.merged c.pending) [
    | none ↦ ok c
    | some p ↦ do
      b ← poll_context c.builder
      b' ← merge p b
      c' ← next (record c { builder = b'; pending = remove c.merged c.pending })
      drain fuel c'
  ]

  -- The image is added in its turn, and put by otherwise.
  unfoldable pub take_result : ℕ → Request → Response → RunState → Run RunState
  unfolding next
  take_result j r resp c =
      let in_turn = (do b ← add lib r resp c.builder; next (record c { builder = b })) in
      let early = (do
        (ctx, p) ← pending_image lib r resp c.builder.alias.ctx
        let builder = record c.builder { alias = record c.builder.alias { ctx = ctx } }
        ok (record c { builder = builder; pending = insert j p c.pending })) in
      if j == c.merged then in_turn else early

  -- One round of the coordinator's loop, for the result of input `j`.
  unfoldable pub receive : ℕ → RunState → Run RunState
  unfolding scan_input take_result drain
  receive j c = do
    b ← poll_context c.builder
    (r, resp) ← scan_input j
    c' ← take_result j r resp (record c { builder = b })
    drain (length c'.pending) c'

  -- The state in which the loop starts, with `count` workers.
  unfoldable pub start : ℕ → BatchBuilder → Run RunState
  unfolding admit_all
  start count b =
      admit_all (min count (length inputs))
        (record { builder = b; admitted = 0; merged = 0; running = []; pending = [] })

  -- As long as an image is missing, any of the running jobs may be the next whose result is received.
  pub data Step (c c' : RunState) : Type 0 where
    receives :
        (before : List ℕ) (j : ℕ) (after : List ℕ)
        → c.merged < length inputs
        → c.running ≡ before ++ j ∷ after
        → receive j (record c { running = before ++ after }) ≡ ok c'
        → Step c c'

  pub data Reach (c : RunState) : RunState → Type 0 where
    here : Reach c c
    onward : {d e : RunState} → Reach c d → Step d e → Reach c e

  -- The images of the first inputs, added one after the other.
  unfoldable pub add_upto : ℕ → BatchBuilder → Run BatchBuilder
  add_upto zero b = ok b
  add_upto (suc n) b = do b' ← add_upto n b; (r, resp) ← scan_input n; add lib r resp b'
