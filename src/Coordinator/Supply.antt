-- ===== src/Coordinator/Supply.antt =====
-- The jobs that the coordinator (go/operation.go) sends, round by round.
use osvpy.Prelude.{
  ℕ, zero, suc, ◌+◌, ◌<◌, ◌≤◌, ◌≡◌, ap, subst, ◌∙◌, true, false, ◌||◌, ◌==◌, ltb, ltb→lt, ◌++◌,
  length, arith, Bool-cases, Option-cases, inl, inr,
}
use osvpy.Maps.{lookup, nat_comparable}
use osvpy.Run.{Run, Ends, Ends-ok, Ends-bind, Ends-after}
use osvpy.Upstream.{Versions}
use osvpy.Operation.{Request}
use osvpy.Image.{Response}
use osvpy.Builder.{add, merge, pending_image, poll_context}
use osvpy.Coordinator.{
  RunState, remove, admit, inputs, scan_input, next, drain, take_result, receive, Step, receives,
  Reach, here, onward,
}
use osvpy.Coordinator.Jobs.{
  lookup-remove, runs, is_some, runs-without, is_some-insert, Owed, admit-Owed, RunsBelow,
  admit-RunsBelow, still_runs,
}

module _ (lib : Versions) (req : Request) (scan : Request → Run Response) where
  abbrev pub total : ℕ
  total = length (inputs lib req scan)

  -- The jobs from `from` on that have been sent are owed, and the next of them has been sent.
  pub record IsSupplied (from : ℕ) (c : RunState) : Type 0 where
    pub owed : (k : ℕ) → from ≤ k → k < c.admitted → Owed k c
    pub ahead : c.merged < total → c.merged < c.admitted
    pub below : RunsBelow total c

  abbrev pub IsFed : RunState → Type 0
  IsFed c = IsSupplied c.merged c

  next-IsFed : (c : RunState) → IsSupplied (c.merged + 1) c → Ends IsFed (next lib req scan c)
  unfolding next admit
  next-IsFed c h = elim (Bool-cases (ltb c.admitted total)) [
    | inl e ↦ rw e (
        Ends-after (poll_context c.builder) λ b. Ends-ok _ (record {
          owed = λ k low. admit-Owed c k (h.owed k low);
          ahead = λ less. let old = h.ahead (omega arith) in omega arith;
          below = admit-RunsBelow total c h.below (ltb→lt c.admitted total e);
        }))
    | inr e ↦
        rw e (Ends-ok _ (record { owed = h.owed; ahead = λ less. ground arith; below = h.below }))
  ]

  drain-IsFed : (fuel : ℕ) (c : RunState) → IsFed c → Ends IsFed (drain lib req scan fuel c)
  unfolding drain
  drain-IsFed zero c h = elim (Option-cases (lookup c.merged c.pending)) [
    | inl e ↦ rw (e, drain) (Ends-ok c h)
    | inr (p, e) ↦ rw (e, drain) (record { holds = λ c' run. absurd (cc) })
  ]
  drain-IsFed (suc fuel) c h = elim (Option-cases (lookup c.merged c.pending)) [
    | inl e ↦ rw (e, drain) (Ends-ok c h)
    | inr (p, e) ↦
        rw (e, drain)
          (Ends-after (poll_context c.builder) λ b. Ends-after (merge p b) λ b'.
            let c' : RunState = record c { builder = b'; pending = remove c.merged c.pending } in
            Ends-bind (next lib req scan c')
              (next-IsFed c' (record {
                owed = λ k low less.
                    let old : Owed k c = h.owed k (omega arith) less in
                    ground (arith, lookup-remove k c.merged c.pending);
                ahead = h.ahead;
                below = h.below;
              }))
              (drain-IsFed fuel))
  ]

  -- Every job is owed but `j`, whose result has been received.
  record IsLacking (j : ℕ) (c : RunState) : Type 0 where
    owed : (k : ℕ) → c.merged ≤ k → k < c.admitted → (k == j) ≡ false → Owed k c
    ahead : c.merged < total → c.merged < c.admitted
    below : RunsBelow total c

  take_result-IsFed :
      (j : ℕ) (r : Request) (resp : Response) (c : RunState)
      → IsLacking j c
      → Ends IsFed (take_result lib req scan j r resp c)
  unfolding take_result
  take_result-IsFed j r resp c h = elim (Bool-cases (j == c.merged)) [
    | inl turn ↦ rw turn (
        Ends-after (add lib r resp c.builder) λ b.
          next-IsFed (record c { builder = b })
            (record {
              owed = λ k low less. h.owed k (omega arith) less (ground arith);
              ahead = h.ahead;
              below = h.below;
            }))
    | inr early ↦ rw early (
        Ends-after (pending_image lib r resp c.builder.alias.ctx) λ x. Ends-ok _ (record {
          owed = λ k low less. elim (Bool-cases (k == j)) [
            | inl same ↦ ground (arith, is_some-insert k j x.1 c.pending)
            | inr other ↦
                let old : Owed k c = h.owed k low less other in
                ground (arith, is_some-insert k j x.1 c.pending)
          ];
          ahead = h.ahead;
          below = h.below;
        }))
  ]

  receive-IsFed : (j : ℕ) (c : RunState) → IsLacking j c → Ends IsFed (receive lib req scan j c)
  unfolding receive
  receive-IsFed j c h = Ends-after (poll_context c.builder) λ b.
      Ends-after (scan_input lib req scan j) λ x.
        Ends-bind (take_result lib req scan j x.0 x.1 (record c { builder = b }))
          (take_result-IsFed j x.0 x.1 (record c { builder = b })
            (record { owed = h.owed; ahead = h.ahead; below = h.below }))
          λ c'. drain-IsFed (length c'.pending) c'

  Step-IsFed : {c c' : RunState} → IsFed c → Step lib req scan c c' → IsFed c'
  Step-IsFed {c} {c'} h (receives before j after _ jobs run) =
      let lacking : IsLacking j (record c { running = before ++ after }) = record {
        owed = λ k low less other.
            let old : Owed k c = h.owed k low less in
            subst (λ b. (b || is_some (lookup k c.pending)) ≡ true)
              (ap (runs k) jobs ∙ runs-without k j before after other) old;
        ahead = h.ahead;
        below = λ k e. h.below k (ap (runs k) jobs ∙ still_runs k j before after e);
      } in
      (receive-IsFed j _ lacking).holds c' run

  pub Reach-IsFed : {c d : RunState} → IsFed c → Reach lib req scan c d → IsFed d
  Reach-IsFed h here = h
  Reach-IsFed h (onward r s) = Step-IsFed (Reach-IsFed h r) s
