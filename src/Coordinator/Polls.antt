-- ===== src/Coordinator/Polls.antt =====
-- A context that is never cancelled stays so under `add` (go/store.go).
use osvpy.Prelude.{◌≡◌, refl, sym, subst, List, [], ◌∷◌, none}
use osvpy.Run.{Ends, Ends-ok, Ends-bind, Ends-after}
use osvpy.Slabs.{Slabs}
use osvpy.Slabs
use osvpy.Context.{Context, check_context}
use osvpy.Report.{ReportImage}
use osvpy.Store.{image_zero}
use osvpy.Alias
use osvpy.Alias.Polls.{union-Keeps}
use osvpy.Upstream.{Versions}
use osvpy.Operation.{Request}
use osvpy.Sink.{Call, poll, occurrence, finding, union}
use osvpy.Image.{Response, project_image}
use osvpy.Builder.{
  BatchBuilder, add_occurrence, add_finding, perform, replay, append_image, with_advisories, add,
  PendingImage, add_to_last, collect_call, collect, no_facts, pending_image,
}
use osvpy.Builder.Split.{polled}

-- The builder's context is never cancelled.
abbrev pub IsCalm : BatchBuilder → Type 0
IsCalm b = b.alias.ctx ≡ none

perform-IsCalm : (c : Call) (b : BatchBuilder) → IsCalm b → Ends IsCalm (perform c b)
unfolding perform
perform-IsCalm poll b h = rw (polled b h) (Ends-ok b h)
perform-IsCalm (occurrence pkg ctx lic) b h =
    rw (polled b h) (Ends-after (add_occurrence pkg ctx lic b.rows) λ rows. Ends-ok _ h)
perform-IsCalm (finding a fix assessment) b h =
    rw (polled b h) (Ends-after (add_finding a fix assessment b.rows) λ rows. Ends-ok _ h)
perform-IsCalm (union ids) b h =
    Ends-bind (Alias.union ids b.alias) (union-Keeps ids b.alias h) λ alias e. Ends-ok _ e

replay-IsCalm : (cs : List Call) (b : BatchBuilder) → IsCalm b → Ends IsCalm (replay cs b)
unfolding replay
replay-IsCalm [] b h = Ends-ok b h
replay-IsCalm (c ∷ cs) b h = Ends-bind (perform c b) (perform-IsCalm c b h) (replay-IsCalm cs)

append_image-IsCalm :
    (im : ReportImage) (b : BatchBuilder) → IsCalm b → Ends IsCalm (append_image im b)
unfolding append_image
append_image-IsCalm im b h = Ends-after (Slabs.append b.rows.report.images im) λ r. Ends-ok _ h

pub add-IsCalm :
    (lib : Versions) (req : Request) (resp : Response) (b : BatchBuilder)
    → IsCalm b
    → Ends IsCalm (add lib req resp b)
unfolding add
add-IsCalm lib req resp b h =
    let r = project_image lib req resp in
    Ends-bind (replay r.0 (with_advisories [] b)) (replay-IsCalm r.0 (with_advisories [] b) h)
      λ b' h'.
        Ends-after r.1 λ im.
          Ends-bind (append_image im b') (append_image-IsCalm im b' h') λ b'' h''. Ends-ok _ h''

collect_call-none :
    (c : Call) (p : PendingImage) → Ends (λ r. r.0 ≡ none) (collect_call c (none, p))
unfolding collect_call check_context
collect_call-none poll p = Ends-ok _ refl
collect_call-none (occurrence pkg ctx lic) p = Ends-ok _ refl
collect_call-none (finding a fix assessment) p =
    Ends-after
      (add_to_last (record { advisory = a; fix = fix; assessment = assessment }) p.occurrences)
      λ os. Ends-ok _ refl
collect_call-none (union ids) p = Ends-ok _ refl

collect-none :
    (cs : List Call) (s : Context × PendingImage)
    → s.0 ≡ none
    → Ends (λ r. r.0 ≡ none) (collect cs s)
unfolding collect
collect-none [] s h = Ends-ok s h
collect-none (c ∷ cs) s h =
    Ends-bind (collect_call c s)
      (subst (λ x. Ends (λ r. r.0 ≡ none) (collect_call c (x, s.1))) (sym h)
        (collect_call-none c s.1))
      (collect-none cs)

pub pending_image-none :
    (lib : Versions) (req : Request) (resp : Response)
    → Ends (λ r. r.0 ≡ none) (pending_image lib req resp none)
unfolding pending_image
pending_image-none lib req resp =
    let r = project_image lib req resp in
    Ends-bind (collect r.0 (none, no_facts)) (collect-none r.0 (none, no_facts) refl)
      λ s h. Ends-after r.1 λ im. Ends-ok _ h
