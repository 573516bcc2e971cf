-- ===== src/Coordinator/Steps.antt =====
-- What the coordinator (go/operation.go) holds after any number of rounds, whatever the order in
-- which the workers' results are received.
use osvpy.Prelude.{ℕ, ◌≡◌, ◌++◌}
use osvpy.Run.{Run, ok}
use osvpy.Upstream.{Versions}
use osvpy.Operation.{Request}
use osvpy.Image.{Response}
use osvpy.Builder.{BatchBuilder}
use osvpy.Coordinator.{RunState, start, Step, receives, Reach, here, onward, add_upto}
use osvpy.Coordinator.Polls.{IsCalm}
use osvpy.Coordinator.Rounds.{IsInOrder, receive-IsInOrder, start-IsInOrder}

module _ (lib : Versions) (req : Request) (scan : Request → Run Response) (b0 : BatchBuilder) where
  Step-IsInOrder :
      {c c' : RunState}
      → IsInOrder lib req scan b0 c
      → Step lib req scan c c'
      → IsInOrder lib req scan b0 c'
  Step-IsInOrder {c} {c'} h (receives before j after _ jobs run) =
      let c1 : RunState = record c { running = before ++ after } in
      (receive-IsInOrder lib req scan b0 j c1
          (record { holds = h.holds; waiting = h.waiting })).holds
        c' run

  pub Reach-IsInOrder :
      {c d : RunState}
      → IsInOrder lib req scan b0 c
      → Reach lib req scan c d
      → IsInOrder lib req scan b0 d
  Reach-IsInOrder h here = h
  Reach-IsInOrder h (onward r s) = Step-IsInOrder (Reach-IsInOrder h r) s

-- With a context that is never cancelled, in any state that the coordinator reaches from its start,
-- whatever the order in which results are received, the builder is the one that adding the images
-- of the first `merged` inputs one after the other gives.
pub Reach-add_upto :
    (lib : Versions) (req : Request) (scan : Request → Run Response) (b0 : BatchBuilder) (count : ℕ)
    (c d : RunState)
    → IsCalm b0
    → start lib req scan count b0 ≡ ok c
    → Reach lib req scan c d
    → add_upto lib req scan d.merged b0 ≡ ok d.builder
Reach-add_upto lib req scan b0 count c d calm begun reach =
    let first = (start-IsInOrder lib req scan b0 count calm).holds c begun in
    (Reach-IsInOrder lib req scan b0 first reach).holds.sequential
