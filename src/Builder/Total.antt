-- ===== src/Builder/Total.antt =====
-- Collecting the calls of a projection (go/store.go) never fails by itself.
use osvpy.Prelude.{◌<◌, ◌≡◌, refl, List, [], ◌∷◌, ◌++◌, length, none, true, arith, length-append}
use osvpy.Run.{ok, ◌>>=◌, Returns}
use osvpy.Context.{check_context}
use osvpy.Report.{ReportImage}
use osvpy.Upstream.{Versions}
use osvpy.Operation.{Request}
use osvpy.Sink.{Call, poll, occurrence, finding, union}
use osvpy.Image.{Response, project_image}
use osvpy.Image.Order.{is_headed, project_image-is_headed}
use osvpy.Builder.{
  PendingFinding, PendingOccurrence, PendingImage, add_to_last, collect_call, collect, no_facts,
  pending_image,
}

add_to_last-Returns :
    (f : PendingFinding) (os : List PendingOccurrence)
    → 0 < length os
    → Returns (add_to_last f os) λ os'. 0 < length os'
unfolding add_to_last
add_to_last-Returns f [] h = absurd (omega arith)
add_to_last-Returns f (o ∷ []) h = (_, refl, omega arith)
add_to_last-Returns f (o ∷ o' ∷ os) h =
    let (os', run, h') = add_to_last-Returns f (o' ∷ os) (omega arith) in
    (o ∷ os', rw (run, ◌>>=◌) refl, omega arith)

-- With an occurrence any calls can be collected.
collect-full :
    (cs : List Call) (p : PendingImage)
    → 0 < length p.occurrences
    → Returns (collect cs (none, p)) λ r. r.0 ≡ none
unfolding collect collect_call check_context
collect-full [] p h = ((none, p), refl, refl)
collect-full (poll ∷ cs) p h = collect-full cs p h
collect-full (union ids ∷ cs) p h = collect-full cs (record p { aliases = p.aliases ++ ids ∷ [] }) h
collect-full (occurrence pkg ctx lic ∷ cs) p h =
    let o : PendingOccurrence = record { pkg = pkg; context = ctx; license = lic; findings = [] } in
    collect-full cs (record p { occurrences = p.occurrences ++ o ∷ [] })
      (omega (arith, length-append p.occurrences (o ∷ [])))
collect-full (finding a fix assessment ∷ cs) p h =
    let f : PendingFinding = record { advisory = a; fix = fix; assessment = assessment } in
    let (os, run, h') = add_to_last-Returns f p.occurrences h in
    let (r, runs, q) = collect-full cs (record p { occurrences = os }) h' in
    (r, rw (run, ◌>>=◌) runs, q)

collect-headed :
    (cs : List Call) (p : PendingImage)
    → is_headed cs ≡ true
    → Returns (collect cs (none, p)) λ r. r.0 ≡ none
unfolding collect collect_call check_context is_headed
collect-headed [] p h = ((none, p), refl, refl)
collect-headed (poll ∷ cs) p h = collect-headed cs p h
collect-headed (union ids ∷ cs) p h =
    collect-headed cs (record p { aliases = p.aliases ++ ids ∷ [] }) h
collect-headed (occurrence pkg ctx lic ∷ cs) p h =
    let o : PendingOccurrence = record { pkg = pkg; context = ctx; license = lic; findings = [] } in
    collect-full cs (record p { occurrences = p.occurrences ++ o ∷ [] })
      (omega (arith, length-append p.occurrences (o ∷ [])))
collect-headed (finding a fix assessment ∷ cs) p h = absurd (cc)

-- Where the projection of a response returns an image and the context is never cancelled,
-- collecting its calls in a pending image returns that image: no finding comes before the first
-- occurrence.
pub pending_image-Returns :
    (lib : Versions) (req : Request) (resp : Response) (im : ReportImage)
    → (project_image lib req resp).1 ≡ ok im
    → Returns (pending_image lib req resp none) λ r. (r.0 ≡ none) × (r.1.image ≡ im)
unfolding pending_image
pending_image-Returns lib req resp im e =
    let (s, run, same) =
      collect-headed (project_image lib req resp).0 no_facts
        (project_image-is_headed lib req resp) in
    ((s.0, record s.1 { image = im }), rw (run, ◌>>=◌, e) refl, (same, refl))
