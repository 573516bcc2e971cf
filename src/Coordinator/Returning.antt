-- ===== src/Coordinator/Returning.antt =====
-- When a round of the coordinator (go/operation.go) returns.
use osvpy.Prelude.{
  ℕ, zero, suc, ◌+◌, ◌<◌, ◌≤◌, ◌≡◌, refl, sym, subst, ◌∙◌, ◌==◌, ==_iff, ltb, List, [], ◌∷◌, length,
  some, none, arith, Bool-cases, Option-cases, inl, inr,
}
use osvpy.Maps.{Map, lookup, insert, nat_comparable}
use osvpy.Run.{Run, ok, ◌>>=◌, Returns, index, bind_ok}
use osvpy.Upstream.{Versions}
use osvpy.Operation.{Request}
use osvpy.Image.{Response, project_image}
use osvpy.Builder.{BatchBuilder, PendingImage, replay, with_advisories, add, merge, pending_image}
use osvpy.Builder.Split.{polled}
use osvpy.Builder.Equivalence.{merge-add}
use osvpy.Builder.Total.{pending_image-Returns}
use osvpy.Coordinator.{
  RunState, remove, admit, inputs, scan_input, next, drain, take_result, receive, add_upto,
}
use osvpy.Coordinator.Polls.{IsCalm, add-IsCalm}
use osvpy.Coordinator.Rounds.{
  IsInOrder, take_result-IsInOrder, merge-Holds, next-IsInOrder, AllWait-remove,
}

length-remove_le : (k : ℕ) (m : Map ℕ PendingImage) → length (remove k m) ≤ length m
unfolding remove
length-remove_le k [] = omega arith
length-remove_le k (e ∷ m) = ground (arith, length-remove_le k m)

length-remove :
    (k : ℕ) (m : Map ℕ PendingImage) (p : PendingImage)
    → lookup k m ≡ some p
    → length (remove k m) < length m
unfolding remove lookup
length-remove k [] p e = absurd (cc)
length-remove k (e0 ∷ m) p e = elim (Bool-cases (e0.0 == k)) [
  | inl same ↦ rw same (omega (arith, length-remove_le k m))
  | inr other ↦ rw other (omega (arith, length-remove k m p (ground (arith))))
]

index_below : {A : Type 0} (xs : List A) (i : ℕ) {a : A} → index xs i ≡ ok a → i < length xs
unfolding index
index_below [] i e = absurd (cc)
index_below (x ∷ xs) zero e = omega arith
index_below (x ∷ xs) (suc i) e = omega (arith, index_below xs i e)

-- The code returns.
abbrev pub Succeeds : {A : Type 0} → Run A → Type 0
Succeeds {A} code = (result : A) × (code ≡ ok result)

module _ (lib : Versions) (req : Request) (scan : Request → Run Response) (b0 : BatchBuilder) where
  abbrev total : ℕ
  total = length (inputs lib req scan)

  scan_input_below : (k : ℕ) {x : Request × Response} → scan_input lib req scan k ≡ ok x → k < total
  unfolding scan_input
  scan_input_below k e =
      let (image, e1, e2) = bind_ok (index (inputs lib req scan) k) _ e in
      index_below (inputs lib req scan) k e1

  -- No more images are added than there are inputs.
  pub add_upto_below : (n : ℕ) {b : BatchBuilder} → add_upto lib req scan n b0 ≡ ok b → n ≤ total
  unfolding add_upto
  add_upto_below zero e = omega arith
  add_upto_below (suc n) e =
      let (b1, e1, e2) = bind_ok (add_upto lib req scan n b0) _ e in
      let (x, e3, e4) = bind_ok (scan_input lib req scan n) _ e2 in
      omega (arith, scan_input_below n e3)

  add_upto_first :
      (n t : ℕ) {b : BatchBuilder}
      → n ≤ t
      → add_upto lib req scan t b0 ≡ ok b
      → Succeeds (add_upto lib req scan n b0)
  unfolding add_upto
  add_upto_first zero t le e = (b0, refl)
  add_upto_first (suc n) zero le e = absurd (omega arith)
  add_upto_first (suc n) (suc t) {b} le e = elim (Bool-cases (n == t)) [
    | inl same ↦
        subst (λ k. Succeeds (add_upto lib req scan (suc k) b0)) (sym ((==_iff n t).0 same)) (b, e)
    | inr other ↦
        let (b1, e1, e2) = bind_ok (add_upto lib req scan t b0) _ e in
        add_upto_first (suc n) t (ground (arith)) e1
  ]

  -- If all images can be added, the next one can.
  add-Returns :
      (n : ℕ) (r : Request) (resp : Response) (b bt : BatchBuilder)
      → add_upto lib req scan total b0 ≡ ok bt
      → add_upto lib req scan n b0 ≡ ok b
      → scan_input lib req scan n ≡ ok (r, resp)
      → Succeeds (add lib r resp b)
  unfolding add_upto
  add-Returns n r resp b bt whole e scanned =
      let (b', e') = add_upto_first (suc n) total (scan_input_below n scanned) whole in
      let step : add_upto lib req scan (suc n) b0 ≡ add lib r resp b =
        rw (e, ◌>>=◌, scanned) refl in
      (b', sym step ∙ e')

  -- Each input can be scanned, and its result projected.
  scan_input-Returns :
      (j : ℕ) (bt : BatchBuilder)
      → add_upto lib req scan total b0 ≡ ok bt
      → j < total
      → Returns (scan_input lib req scan j) λ x. Succeeds (pending_image lib x.0 x.1 none)
  unfolding add_upto add
  scan_input-Returns j bt whole less =
      let (b', e') = add_upto_first (suc j) total less whole in
      let (b1, e1, e2) = bind_ok (add_upto lib req scan j b0) _ e' in
      let (x, e3, e4) = bind_ok (scan_input lib req scan j) _ e2 in
      let r = project_image lib x.0 x.1 in
      let (b2, e5, e6) = bind_ok (replay r.0 (with_advisories [] b1)) _ e4 in
      let (im, e7, e8) = bind_ok r.1 _ e6 in
      let (y, e9, q) = pending_image-Returns lib x.0 x.1 im e7 in (x, e3, (y, e9))

  next-Returns :
      (c : RunState)
      → IsCalm c.builder
      → Returns (next lib req scan c) λ c'. (c'.pending ≡ c.pending) × (c'.merged ≡ c.merged + 1)
  unfolding next admit
  next-Returns c calm = elim (Bool-cases (ltb c.admitted (length (inputs lib req scan)))) [
    | inl e ↦ rw (e, polled c.builder calm) (_, refl, (refl, refl))
    | inr e ↦ rw e (_, refl, (refl, refl))
  ]

  drain-Returns :
      (fuel : ℕ) (c : RunState) (bt : BatchBuilder)
      → add_upto lib req scan total b0 ≡ ok bt
      → IsInOrder lib req scan b0 c
      → length c.pending ≤ fuel
      → Returns (drain lib req scan fuel c) λ c'. c.merged ≤ c'.merged
  unfolding drain
  drain-Returns zero c bt whole h enough = elim (Option-cases (lookup c.merged c.pending)) [
    | inl e ↦ rw (e, drain) (c, refl, omega arith)
    | inr (p, e) ↦ absurd (omega (arith, length-remove c.merged c.pending p e))
  ]
  drain-Returns (suc fuel) c bt whole h enough = elim (Option-cases (lookup c.merged c.pending)) [
    | inl e ↦ rw (e, drain) (c, refl, omega arith)
    | inr (p, e) ↦
        let w = h.waiting c.merged p e in
        let (b', added) =
          add-Returns c.merged w.request w.response c.builder bt whole h.holds.sequential
            w.scanned in
        let merges : merge p c.builder ≡ ok b' =
          (merge-add lib w.request w.response w.context p c.builder b' w.projected h.holds.calm).1
            added in
        let h' = (merge-Holds lib req scan b0 c.merged p c.builder h.holds w).holds b' merges in
        let c1 : RunState = record c { builder = b'; pending = remove c.merged c.pending } in
        let (c2, more, (same, up)) = next-Returns c1 h'.calm in
        let h2 =
          (next-IsInOrder lib req scan b0 c1 h'
              (AllWait-remove lib req scan b0 c.merged c.pending h.waiting)).holds
            c2 more in
        let (c3, rest, le) =
          drain-Returns fuel c2 bt whole h2
            (rw same (omega (arith, length-remove c.merged c.pending p e))) in
        (c3, rw (e, drain, polled c.builder h.holds.calm, ◌>>=◌, merges, more) rest, omega arith)
  ]

  take_result-Returns :
      (j : ℕ) (r : Request) (resp : Response) (c : RunState) (bt : BatchBuilder)
      → add_upto lib req scan total b0 ≡ ok bt
      → IsInOrder lib req scan b0 c
      → scan_input lib req scan j ≡ ok (r, resp)
      → Succeeds (pending_image lib r resp none)
      → Returns
          (take_result lib req scan j r resp c)
          λ c'. (j ≡ c.merged → c.merged < c'.merged) × (c.merged ≤ c'.merged)
  unfolding take_result
  take_result-Returns j r resp c bt whole h e pend = elim (Bool-cases (j == c.merged)) [
    | inl turn ↦
        let same = (==_iff j c.merged).0 turn in
        let (b', added) =
          add-Returns c.merged r resp c.builder bt whole h.holds.sequential
            (subst (λ k. scan_input lib req scan k ≡ ok (r, resp)) same e) in
        let calm = (add-IsCalm lib r resp c.builder h.holds.calm).holds b' added in
        let (c2, more, (q, up)) = next-Returns (record c { builder = b' }) calm in
        (c2, rw (turn, added, ◌>>=◌) more, ((λ x. omega arith), omega arith))
    | inr early ↦
        let (x, run) = pend in
        let builder : BatchBuilder = record c.builder {
          alias = record c.builder.alias { ctx = x.0 };
        } in
        let put : RunState = record c { builder = builder; pending = insert j x.1 c.pending } in
        (
          put,
          rw (early, h.holds.calm, run, ◌>>=◌) refl,
          ((λ x. absurd (ground arith)), omega arith),
        )
  ]

  pub receive-Returns :
      (j : ℕ) (c : RunState) (bt : BatchBuilder)
      → add_upto lib req scan total b0 ≡ ok bt
      → IsInOrder lib req scan b0 c
      → j < total
      → Returns (receive lib req scan j c) λ c'. (j ≡ c.merged → c.merged < c'.merged)
  unfolding receive
  receive-Returns j c bt whole h less =
      let (x, scanned, pend) = scan_input-Returns j bt whole less in
      let (c1, took, (up, le)) = take_result-Returns j x.0 x.1 c bt whole h scanned pend in
      let h1 = (take_result-IsInOrder lib req scan b0 j x.0 x.1 c h scanned).holds c1 took in
      let (c2, drained, le2) = drain-Returns (length c1.pending) c1 bt whole h1 (omega arith) in
      (
        c2,
        rw (polled c.builder h.holds.calm, ◌>>=◌, scanned, took) drained,
        λ e. omega (arith, up e),
      )
