-- ===== src/Coordinator/Progress.antt =====
-- The first jobs of the coordinator (go/operation.go), and the job that it needs next.
use osvpy.Prelude.{
  min, ℕ, zero, suc, ◌+◌, ◌<◌, ◌≡◌, refl, ap, subst, List, [], ◌∷◌, ◌++◌, length, arith,
  Option-cases, inl, inr,
}
use osvpy.Maps.{lookup, nat_comparable}
use osvpy.Run.{Run, ok, Ends, Ends-ok, Ends-bind, Ends-after}
use osvpy.Upstream.{Versions}
use osvpy.Operation.{Request}
use osvpy.Image.{Response}
use osvpy.Builder.{BatchBuilder, merge, poll_context}
use osvpy.Coordinator.{
  RunState, remove, admit, admit_all, inputs, scan_input, next, drain, take_result, receive, start,
  receives, Reach, here, onward,
}
use osvpy.Coordinator.Jobs.{
  runs, is_some, runs-split, Owed, admit-Owed, IsSettled, RunsBelow, admit-RunsBelow,
}
use osvpy.Coordinator.Supply.{total, IsFed, Reach-IsFed}

module _ (lib : Versions) (req : Request) (scan : Request → Run Response) where
  -- The first jobs, before any result.
  pub record IsBegun (n : ℕ) (c : RunState) : Type 0 where
    owed : (k : ℕ) → k < c.admitted → Owed k c
    sent : c.admitted ≡ n
    none_merged : c.merged ≡ 0
    none_waits : c.pending ≡ []
    below : RunsBelow c.admitted c

  admit-IsBegun : (n : ℕ) (c : RunState) → IsBegun n c → Ends (IsBegun (n + 1)) (admit c)
  unfolding admit
  admit-IsBegun n c h = Ends-after (poll_context c.builder) λ b. Ends-ok _ (record {
    owed = λ k. admit-Owed c k (h.owed k);
    sent = ap (λ k. k + 1) h.sent;
    none_merged = h.none_merged;
    none_waits = h.none_waits;
    below = admit-RunsBelow (c.admitted + 1) c (λ k e. omega (arith, h.below k e)) (omega arith);
  })

  admit_all-IsBegun :
      (m n : ℕ) (c : RunState) → IsBegun n c → Ends (IsBegun (n + m)) (admit_all m c)
  unfolding admit_all admit
  admit_all-IsBegun zero n c h = subst (λ k. Ends (IsBegun k) (ok c)) (omega arith) (Ends-ok c h)
  admit_all-IsBegun (suc m) n c h = Ends-bind (admit c) (admit-IsBegun n c h) λ c' h'.
      subst (λ k. Ends (IsBegun k) (admit_all m c')) (omega arith)
        (admit_all-IsBegun m (n + 1) c' h')

  sent_first :
      (count : ℕ) (c : RunState)
      → 0 < count
      → c.merged ≡ 0
      → c.admitted ≡ 0 + min count (total lib req scan)
      → c.merged < (total lib req scan)
      → c.merged < c.admitted
  sent_first count c some_worker e f less = omega arith

  pub start-IsBegun :
      (count : ℕ) (b : BatchBuilder)
      → Ends (IsBegun (0 + min count (total lib req scan))) (start lib req scan count b)
  unfolding start runs
  start-IsBegun count b = admit_all-IsBegun (min count (total lib req scan)) 0 _ (record {
    owed = λ k less. absurd (omega arith);
    sent = refl;
    none_merged = refl;
    none_waits = refl;
    below = λ k e. absurd (cc);
  })

  pub IsBegun-IsFed :
      (count : ℕ) (c : RunState)
      → 0 < count
      → IsBegun (0 + min count (total lib req scan)) c
      → IsFed lib req scan c
  IsBegun-IsFed count c some_worker h = record {
    owed = λ k low. h.owed k;
    ahead = sent_first count c some_worker h.none_merged h.sent;
    below = λ k e. omega (arith, h.below k e, h.sent);
  }

  IsBegun-IsSettled : (n : ℕ) (c : RunState) → IsBegun n c → IsSettled c
  unfolding lookup
  IsBegun-IsSettled n c h = ap (lookup c.merged) h.none_waits

  -- The inner loop goes on as long as the next image waits.
  drain-IsSettled : (fuel : ℕ) (c : RunState) → Ends IsSettled (drain lib req scan fuel c)
  unfolding drain
  drain-IsSettled zero c = elim (Option-cases (lookup c.merged c.pending)) [
    | inl e ↦ rw (e, drain) (Ends-ok c e)
    | inr (p, e) ↦ rw (e, drain) (record { holds = λ c' run. absurd (cc) })
  ]
  drain-IsSettled (suc fuel) c = elim (Option-cases (lookup c.merged c.pending)) [
    | inl e ↦ rw (e, drain) (Ends-ok c e)
    | inr (p, e) ↦
        rw (e, drain)
          (Ends-after (poll_context c.builder) λ b. Ends-after (merge p b) λ b'.
            Ends-after
              (next lib req scan (record c { builder = b'; pending = remove c.merged c.pending }))
              (drain-IsSettled fuel))
  ]

  receive-IsSettled : (j : ℕ) (c : RunState) → Ends IsSettled (receive lib req scan j c)
  unfolding receive
  receive-IsSettled j c = Ends-after (poll_context c.builder) λ b.
      Ends-after (scan_input lib req scan j) λ x.
        Ends-after (take_result lib req scan j x.0 x.1 (record c { builder = b }))
          λ c'. drain-IsSettled (length c'.pending) c'

  Reach-IsSettled : {c d : RunState} → IsSettled c → Reach lib req scan c d → IsSettled d
  Reach-IsSettled h here = h
  Reach-IsSettled h (onward {d} {e} r (receives before j after _ jobs run)) =
      (receive-IsSettled j (record d { running = before ++ after })).holds e run

  next_runs :
      (c : RunState)
      → IsFed lib req scan c
      → IsSettled c
      → c.merged < (total lib req scan)
      → (before : List ℕ) × (after : List ℕ) × (c.running ≡ before ++ c.merged ∷ after)
  unfolding is_some
  next_runs c h settled less =
      let owed : Owed c.merged c = h.owed c.merged (omega arith) (h.ahead less) in
      runs-split c.merged c.running (ground (arith))

-- With at least one worker, in any state that the coordinator reaches from its start with an image
-- missing, the job of the next image to merge is running, so that the coordinator never waits for a
-- result that no worker owes it.
pub Reach-running :
    (lib : Versions) (req : Request) (scan : Request → Run Response) (b0 : BatchBuilder) (count : ℕ)
    (c d : RunState)
    → 0 < count
    → start lib req scan count b0 ≡ ok c
    → Reach lib req scan c d
    → d.merged < length (inputs lib req scan)
    → (before : List ℕ) × (after : List ℕ) × (d.running ≡ before ++ d.merged ∷ after)
Reach-running lib req scan b0 count c d some_worker begun reach less =
    let first = (start-IsBegun lib req scan count b0).holds c begun in
    next_runs lib req scan d
      (Reach-IsFed lib req scan (IsBegun-IsFed lib req scan count c some_worker first) reach)
      (Reach-IsSettled lib req scan (IsBegun-IsSettled lib req scan _ c first) reach) less
