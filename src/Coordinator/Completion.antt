-- ===== src/Coordinator/Completion.antt =====
-- The end of the coordinator (go/operation.go).
use osvpy.Prelude.{
  ℕ, zero, suc, ◌+◌, ◌<◌, ◌≤◌, ◌≡◌, refl, sym, ap, ◌∙◌, ltb, ltb→lt, List, ◌∷◌, ◌++◌, length, arith,
  Bool-cases, inl, inr,
}
use osvpy.Maps.{nat_comparable}
use osvpy.Run.{Run, ok, ok_injective}
use osvpy.Upstream.{Versions}
use osvpy.Operation.{Request}
use osvpy.Image.{Response}
use osvpy.Builder.{BatchBuilder}
use osvpy.Coordinator.{
  RunState, inputs, receive, start, Step, receives, Reach, here, onward, add_upto,
}
use osvpy.Coordinator.Polls.{IsCalm}
use osvpy.Coordinator.Jobs.{runs, runs-here}
use osvpy.Coordinator.Supply.{Reach-IsFed}
use osvpy.Coordinator.Progress.{start-IsBegun, IsBegun-IsFed, Reach-running}
use osvpy.Coordinator.Steps.{Reach-IsInOrder}
use osvpy.Coordinator.Rounds.{start-IsInOrder}
use osvpy.Coordinator.Returning.{add_upto_below, receive-Returns}

-- Where the images of all inputs can be scanned and added one after the other, the context is never
-- cancelled and there is at least one worker, in any state that the coordinator reaches from its
-- start, the round that receives the result of any running job returns, so that it neither panics
-- nor runs out of fuel; if the job is that of the next image, the number of merged images grows.
pub Reach-receive :
    (lib : Versions) (req : Request) (scan : Request → Run Response) (b0 bt : BatchBuilder)
    (count : ℕ) (c d : RunState) (before : List ℕ) (j : ℕ) (after : List ℕ)
    → IsCalm b0
    → add_upto lib req scan (length (inputs lib req scan)) b0 ≡ ok bt
    → 0 < count
    → start lib req scan count b0 ≡ ok c
    → Reach lib req scan c d
    → d.running ≡ before ++ j ∷ after
    → (e : RunState) × (receive lib req scan j (record d { running = before ++ after }) ≡ ok e)
      × (j ≡ d.merged → d.merged < e.merged)
Reach-receive lib req scan b0 bt count c d before j after calm whole some_worker begun reach jobs =
    let first = (start-IsBegun lib req scan count b0).holds c begun in
    let fed =
      Reach-IsFed lib req scan (IsBegun-IsFed lib req scan count c some_worker first) reach in
    let h =
      Reach-IsInOrder lib req scan b0 ((start-IsInOrder lib req scan b0 count calm).holds c begun)
        reach in
    receive-Returns lib req scan b0 j (record d { running = before ++ after }) bt whole
      (record { holds = h.holds; waiting = h.waiting })
      (fed.below j (ap (runs j) jobs ∙ runs-here j before after))

before_Reach :
    (lib : Versions) (req : Request) (scan : Request → Run Response) {c d e : RunState}
    → Step lib req scan c d
    → Reach lib req scan d e
    → Reach lib req scan c e
before_Reach lib req scan s here = onward here s
before_Reach lib req scan s (onward r t) = onward (before_Reach lib req scan s r) t

-- A run that merges the rest, in at most `n` rounds.
complete :
    (lib : Versions) (req : Request) (scan : Request → Run Response) (b0 bt : BatchBuilder)
    (count : ℕ) (c d : RunState) (n : ℕ)
    → IsCalm b0
    → add_upto lib req scan (length (inputs lib req scan)) b0 ≡ ok bt
    → 0 < count
    → start lib req scan count b0 ≡ ok c
    → Reach lib req scan c d
    → length (inputs lib req scan) ≤ d.merged + n
    → (e : RunState) × Reach lib req scan d e × (length (inputs lib req scan) ≤ e.merged)
complete lib req scan b0 bt count c d zero calm whole some_worker begun reach rest =
    (d, here, omega arith)
complete lib req scan b0 bt count c d (suc n) calm whole some_worker begun reach rest =
    elim (Bool-cases (ltb d.merged (length (inputs lib req scan)))) [
      | inl less ↦
          let (before, after, jobs) =
            Reach-running lib req scan b0 count c d some_worker begun reach
              (ltb→lt d.merged _ less) in
          let (e, run, up) =
            Reach-receive lib req scan b0 bt count c d before d.merged after calm whole some_worker
              begun reach jobs in
          let step = receives before d.merged after (ltb→lt d.merged _ less) jobs run in
          let (f, on, done) =
            complete lib req scan b0 bt count c e n calm whole some_worker begun (onward reach step)
              (omega (arith, up refl)) in
          (f, before_Reach lib req scan step on, done)
      | inr e ↦ (d, here, ground arith)
    ]

-- Where the images of all inputs can be scanned and added one after the other, the context is never
-- cancelled and there is at least one worker, in any state that the coordinator reaches from its
-- start, further rounds lead to a state in which all images are merged, and its builder is the one
-- that adding them in order gives.
pub Reach-completes :
    (lib : Versions) (req : Request) (scan : Request → Run Response) (b0 bt : BatchBuilder)
    (count : ℕ) (c d : RunState)
    → IsCalm b0
    → add_upto lib req scan (length (inputs lib req scan)) b0 ≡ ok bt
    → 0 < count
    → start lib req scan count b0 ≡ ok c
    → Reach lib req scan c d
    → (e : RunState) × Reach lib req scan d e
      × (e.merged ≡ length (inputs lib req scan))
      × (e.builder ≡ bt)
Reach-completes lib req scan b0 bt count c d calm whole some_worker begun reach =
    let (e, on, done) =
      complete lib req scan b0 bt count c d (length (inputs lib req scan)) calm whole some_worker
        begun reach (omega arith) in
    let first = (start-IsInOrder lib req scan b0 count calm).holds c begun in
    let h = Reach-IsInOrder lib req scan b0 (Reach-IsInOrder lib req scan b0 first reach) on in
    let all : e.merged ≡ length (inputs lib req scan) =
      omega (arith, add_upto_below lib req scan b0 e.merged h.holds.sequential) in
    (
      e,
      on,
      all,
      ok_injective (sym h.holds.sequential ∙ ap (λ n. add_upto lib req scan n b0) all ∙ whole),
    )
