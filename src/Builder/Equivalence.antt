-- ===== src/Builder/Equivalence.antt =====
-- `merge` of a `pendingImage` against `add` of the same image (go/store.go).
use osvpy.Prelude.{◌≡◌, ◌↔◌, ap, sym, subst, ◌∙◌, [], none}
use osvpy.Run.{Run, ok, ◌>>=◌, ok_injective, bind-bind, under_bind, bind-same, bind_ok}
use osvpy.Context.{Context}
use osvpy.Report.{ReportImage}
use osvpy.Upstream.{Versions}
use osvpy.Operation.{Request}
use osvpy.Image.{Response, project_image}
use osvpy.Builder.{
  BatchBuilder, replay, with_advisories, append_image, add, PendingImage, collect, no_facts,
  pending_image, merge_occurrences, merge,
}
use osvpy.Builder.Merging.{
  union_calls, occurrence_calls, merge_calls, replay-append, union_all-replay, occurrences-replay,
}
use osvpy.Builder.Collected.{Collected, collect-Collected, replay-merge_calls}

-- The end of `add` and of `merge`.
abbrev close : ReportImage → BatchBuilder → Run BatchBuilder
close im b = append_image im b >>= λ b. ok (with_advisories [] b)

merge-replay :
    (p : PendingImage) (b : BatchBuilder)
    → merge p b ≡ (replay (merge_calls p) (with_advisories [] b) >>= close p.image)
unfolding merge
merge-replay p b =
    let start = with_advisories [] b in
    ap (λ m. m >>= λ b. merge_occurrences p.occurrences b >>= close p.image)
      (union_all-replay p.aliases start)
    ∙ under_bind (replay (union_calls p.aliases) start)
        (λ b. ap (λ m. m >>= close p.image) (occurrences-replay p.occurrences b))
    ∙ sym (
        bind-bind (replay (union_calls p.aliases) start) (replay (occurrence_calls p.occurrences))
          (close p.image))
    ∙ ap (λ m. m >>= close p.image)
        (sym (replay-append (union_calls p.aliases) (occurrence_calls p.occurrences) start))

-- For a builder and a projection whose context is never cancelled, and a pending image that has
-- been collected from the projection of a response, `merge` of the pending image returns a builder
-- exactly when `add` of the response returns it.
pub merge-add :
    (lib : Versions) (req : Request) (resp : Response) (ctx : Context) (p : PendingImage)
    (b b' : BatchBuilder)
    → pending_image lib req resp none ≡ ok (ctx, p)
    → b.alias.ctx ≡ none
    → (merge p b ≡ ok b') ↔ (add lib req resp b ≡ ok b')
unfolding pending_image add
merge-add lib req resp ctx p b b' e h =
    let r = project_image lib req resp in
    let start = with_advisories [] b in
    let (s, collected, rest) = bind_ok (collect r.0 (none, no_facts)) _ e in
    let (im, done, last) = bind_ok r.1 _ rest in
    let facts = (collect-Collected r.0 (none, no_facts)).holds s collected in
    let same : record s.1 { image = im } ≡ p = ap (λ x. x.1) (ok_injective last) in
    let known : Collected r.0 no_facts (record s.1 { image = im }) = record {
      aliases = facts.aliases;
      rows = facts.rows;
    } in
    let iff = λ (x : BatchBuilder).
      replay-merge_calls r.0 p start x h (subst (Collected r.0 no_facts) same known) in
    let direct : add lib req resp b ≡ (replay r.0 start >>= close p.image) =
      under_bind (replay r.0 start)
        λ b. ap (λ m. m >>= λ i. close i b) done ∙ ap (λ q. close q.image b) same in
    (
      λ m.
          direct
          ∙ bind-same (replay (merge_calls p) start) (replay r.0 start) (close p.image) b'
              (λ x. (iff x).1) (sym (merge-replay p b) ∙ m),
      λ a.
          merge-replay p b
          ∙ bind-same (replay r.0 start) (replay (merge_calls p) start) (close p.image) b'
              (λ x. (iff x).0) (sym direct ∙ a),
    )
