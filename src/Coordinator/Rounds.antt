-- ===== src/Coordinator/Rounds.antt =====
-- A round of the coordinator (go/operation.go) and the images that its builder holds.
use osvpy.Prelude.{
  min, ℕ, zero, suc, ◌+◌, ◌≡◌, refl, sym, ap, subst, ◌∙◌, ◌==◌, ==_iff, ltb, length, some, none,
  arith, Bool-cases, Option-cases, inl, inr,
}
use osvpy.Maps.{Map, lookup, insert, lookup-insert, nat_comparable}
use osvpy.Run.{Run, ok, ◌>>=◌, Ends, Ends-ok, Ends-bind}
use osvpy.Context.{Context}
use osvpy.Upstream.{Versions}
use osvpy.Operation.{Request}
use osvpy.Image.{Response}
use osvpy.Builder.{BatchBuilder, PendingImage, add, merge, pending_image}
use osvpy.Builder.Split.{polled}
use osvpy.Builder.Equivalence.{merge-add}
use osvpy.Coordinator.{
  RunState, remove, admit, admit_all, start, inputs, scan_input, next, drain, take_result, receive,
  add_upto,
}
use osvpy.Coordinator.Jobs.{lookup-remove}
use osvpy.Coordinator.Polls.{IsCalm, add-IsCalm, pending_image-none}

module _ (lib : Versions) (req : Request) (scan : Request → Run Response) (b0 : BatchBuilder) where
  -- An image that waits is the projection of its input's result.
  pub record Waits (k : ℕ) (p : PendingImage) : Type 0 where
    pub request : Request
    pub response : Response
    pub context : Context
    pub scanned : scan_input lib req scan k ≡ ok (request, response)
    pub projected : pending_image lib request response none ≡ ok (context, p)

  abbrev pub AllWait : Map ℕ PendingImage → Type 0
  AllWait m = (k : ℕ) (p : PendingImage) → lookup k m ≡ some p → Waits k p

  -- The builder holds the images of the first `n` inputs.
  pub record Holds (n : ℕ) (b : BatchBuilder) : Type 0 where
    pub calm : IsCalm b
    pub sequential : add_upto lib req scan n b0 ≡ ok b

  pub record IsInOrder (c : RunState) : Type 0 where
    pub holds : Holds c.merged c.builder
    pub waiting : AllWait c.pending

  add-Holds :
      (n : ℕ) (r : Request) (resp : Response) (b : BatchBuilder)
      → Holds n b
      → scan_input lib req scan n ≡ ok (r, resp)
      → Ends (Holds (n + 1)) (add lib r resp b)
  unfolding add_upto
  add-Holds n r resp b h e =
      let more : n + 1 ≡ suc n = omega arith in
      record {
        holds = λ b' run. record {
          calm = (add-IsCalm lib r resp b h.calm).holds b' run;
          sequential = rw (more, h.sequential, ◌>>=◌, e) run;
        };
      }

  pub merge-Holds :
      (n : ℕ) (p : PendingImage) (b : BatchBuilder)
      → Holds n b
      → Waits n p
      → Ends (Holds (n + 1)) (merge p b)
  merge-Holds n p b h w = record {
    holds = λ b' run.
        (add-Holds n w.request w.response b h w.scanned).holds b'
          ((merge-add lib w.request w.response w.context p b b' w.projected h.calm).0 run);
  }

  pub next-IsInOrder :
      (c : RunState)
      → Holds (c.merged + 1) c.builder
      → AllWait c.pending
      → Ends IsInOrder (next lib req scan c)
  unfolding next admit
  next-IsInOrder c h w = elim (Bool-cases (ltb c.admitted (length (inputs lib req scan)))) [
    | inl e ↦ rw (e, polled c.builder h.calm) (Ends-ok _ (record { holds = h; waiting = w }))
    | inr e ↦ rw e (Ends-ok _ (record { holds = h; waiting = w }))
  ]

  pub AllWait-remove : (key : ℕ) (m : Map ℕ PendingImage) → AllWait m → AllWait (remove key m)
  AllWait-remove key m w k p e = w k p (ground (arith, lookup-remove k key m))

  pub drain-IsInOrder :
      (fuel : ℕ) (c : RunState) → IsInOrder c → Ends IsInOrder (drain lib req scan fuel c)
  unfolding drain
  drain-IsInOrder zero c h = elim (Option-cases (lookup c.merged c.pending)) [
    | inl e ↦ rw (e, drain) (Ends-ok c h)
    | inr (p, e) ↦ rw (e, drain) (record { holds = λ c' run. absurd (cc) })
  ]
  drain-IsInOrder (suc fuel) c h = elim (Option-cases (lookup c.merged c.pending)) [
    | inl e ↦ rw (e, drain) (Ends-ok c h)
    | inr (p, e) ↦
        rw (e, drain, polled c.builder h.holds.calm)
          (Ends-bind (merge p c.builder)
            (merge-Holds c.merged p c.builder h.holds (h.waiting c.merged p e))
            λ b' h'.
              let c' : RunState = record c { builder = b'; pending = remove c.merged c.pending } in
              Ends-bind (next lib req scan c')
                (next-IsInOrder c' h' (AllWait-remove c.merged c.pending h.waiting))
                (drain-IsInOrder fuel))
  ]

  still :
      (n : ℕ) (ctx : Context) (b : BatchBuilder)
      → Holds n b
      → ctx ≡ none
      → Holds n (record b { alias = record b.alias { ctx = ctx } })
  still n ctx b h e =
      subst (λ x. Holds n (record b { alias = record b.alias { ctx = x } })) (h.calm ∙ sym e) h

  AllWait-insert :
      (j : ℕ) (r : Request) (resp : Response) (x : Context × PendingImage) (m : Map ℕ PendingImage)
      → AllWait m
      → scan_input lib req scan j ≡ ok (r, resp)
      → pending_image lib r resp none ≡ ok x
      → AllWait (insert j x.1 m)
  AllWait-insert j r resp x m w e run k p found = elim (Bool-cases (j == k)) [
    | inl same ↦
        let it : x.1 ≡ p = ground (arith, lookup-insert j k x.1 m) in
        let own : Waits j p = record {
          request = r;
          response = resp;
          context = x.0;
          scanned = e;
          projected = run ∙ ap (λ q. ok (x.0, q)) it;
        } in
        subst (λ i. Waits i p) ((==_iff j k).0 same) own
    | inr other ↦ w k p (ground (arith, lookup-insert j k x.1 m))
  ]

  pub take_result-IsInOrder :
      (j : ℕ) (r : Request) (resp : Response) (c : RunState)
      → IsInOrder c
      → scan_input lib req scan j ≡ ok (r, resp)
      → Ends IsInOrder (take_result lib req scan j r resp c)
  unfolding take_result
  take_result-IsInOrder j r resp c h e = elim (Bool-cases (j == c.merged)) [
    | inl turn ↦
        let same = (==_iff j c.merged).0 turn in
        rw turn (
          Ends-bind (add lib r resp c.builder)
            (add-Holds c.merged r resp c.builder h.holds
              (subst (λ k. scan_input lib req scan k ≡ ok (r, resp)) same e))
            λ b h'. next-IsInOrder (record c { builder = b }) h' h.waiting)
    | inr early ↦
        rw (early, h.holds.calm)
          (Ends-bind {Q = λ x. (pending_image lib r resp none ≡ ok x) × (x.0 ≡ none)}
            (pending_image lib r resp none)
            (record { holds = λ x run. (run, (pending_image-none lib r resp).holds x run) })
            λ x k. Ends-ok _ (record {
              holds = still c.merged x.0 c.builder h.holds k.1;
              waiting = AllWait-insert j r resp x c.pending h.waiting e k.0;
            }))
  ]

  pub receive-IsInOrder :
      (j : ℕ) (c : RunState) → IsInOrder c → Ends IsInOrder (receive lib req scan j c)
  unfolding receive
  receive-IsInOrder j c h =
      rw (polled c.builder h.holds.calm, ◌>>=◌)
        (Ends-bind {Q = λ x. scan_input lib req scan j ≡ ok x} (scan_input lib req scan j)
          (record { holds = λ x run. run })
          λ x run.
            Ends-bind (take_result lib req scan j x.0 x.1 c)
              (take_result-IsInOrder j x.0 x.1 c h run)
              λ c' h'. drain-IsInOrder (length c'.pending) c' h')

  admit_all-IsInOrder : (n : ℕ) (c : RunState) → IsInOrder c → Ends IsInOrder (admit_all n c)
  unfolding admit_all admit
  admit_all-IsInOrder zero c h = Ends-ok c h
  admit_all-IsInOrder (suc n) c h =
      rw (admit_all, admit, polled c.builder h.holds.calm, ◌>>=◌)
        (admit_all-IsInOrder n _ (record { holds = h.holds; waiting = h.waiting }))

  pub start-IsInOrder : (count : ℕ) → IsCalm b0 → Ends IsInOrder (start lib req scan count b0)
  unfolding start add_upto lookup
  start-IsInOrder count calm =
      admit_all-IsInOrder (min count (length (inputs lib req scan))) _ (record {
        holds = record { calm = calm; sequential = refl };
        waiting = λ k p e. absurd (cc);
      })
