-- ===== src/Builder/Collected.antt =====
-- What a `pendingImage` (go/store.go) has collected from the calls of a projection.
use osvpy.Prelude.{
  ◌≡◌, ◌↔◌, refl, ap, sym, ◌∙◌, List, [], ◌∷◌, ◌++◌, none, append_assoc, append-nil,
}
use osvpy.Run.{ok, Ends, Ends-ok, Ends-bind, Ends-after}
use osvpy.Context.{Context, check_context}
use osvpy.Sink.{Call, poll, occurrence, finding, union}
use osvpy.Builder.{
  BatchBuilder, replay, PendingFinding, PendingOccurrence, PendingImage, add_to_last, collect_call,
  collect, no_facts,
}
use osvpy.Builder.Split.{rows_of, aliases_of, replay-Reaches}
use osvpy.Builder.Merging.{
  finding_calls, occurrence_calls, merge_calls, rows_of-append, aliases_of-append,
  merge_calls-parts,
}

abbrev LastAdded : PendingFinding → List PendingOccurrence → List PendingOccurrence → Type 0
LastAdded f os os' =
    occurrence_calls os' ≡ occurrence_calls os ++ finding f.advisory f.fix f.assessment ∷ []

finding_calls-snoc :
    (fs : List PendingFinding) (f : PendingFinding)
    → finding_calls (fs ++ f ∷ []) ≡ finding_calls fs ++ finding f.advisory f.fix f.assessment ∷ []
finding_calls-snoc [] f = refl
finding_calls-snoc (x ∷ fs) f =
    ap (◌∷◌ (finding x.advisory x.fix x.assessment)) (finding_calls-snoc fs f)

add_to_last-LastAdded :
    (f : PendingFinding) (os : List PendingOccurrence) → Ends (LastAdded f os) (add_to_last f os)
unfolding add_to_last
add_to_last-LastAdded f [] = record { holds = λ r e. absurd (cc) }
add_to_last-LastAdded f (o ∷ []) = Ends-ok _ (
    ap (◌∷◌ (occurrence o.pkg o.context o.license)) (
      append-nil (finding_calls (o.findings ++ f ∷ []))
      ∙ finding_calls-snoc o.findings f
      ∙ ap (λ cs. cs ++ finding f.advisory f.fix f.assessment ∷ [])
          (sym (append-nil (finding_calls o.findings)))))
add_to_last-LastAdded f (o ∷ o' ∷ os) =
    Ends-bind (add_to_last f (o' ∷ os)) (add_to_last-LastAdded f (o' ∷ os)) λ os' e. Ends-ok _ (
      ap (λ cs. occurrence o.pkg o.context o.license ∷ (finding_calls o.findings ++ cs)) e
      ∙ ap (◌∷◌ (occurrence o.pkg o.context o.license))
          (sym (append_assoc (finding_calls o.findings) (occurrence_calls (o' ∷ os)) _)))

-- What has been collected once the calls are through.
pub record Collected (cs : List Call) (p p' : PendingImage) : Type 0 where
  pub aliases : p'.aliases ≡ p.aliases ++ aliases_of cs
  pub rows : occurrence_calls p'.occurrences ≡ occurrence_calls p.occurrences ++ rows_of cs

occurrence_calls-append :
    (os os' : List PendingOccurrence)
    → occurrence_calls (os ++ os') ≡ occurrence_calls os ++ occurrence_calls os'
occurrence_calls-append [] os' = refl
occurrence_calls-append (o ∷ os) os' = ap (◌∷◌ (occurrence o.pkg o.context o.license)) (
    ap (finding_calls o.findings ++◌) (occurrence_calls-append os os')
    ∙ sym (append_assoc (finding_calls o.findings) (occurrence_calls os) (occurrence_calls os')))

-- One call after the others.
Collected-cons :
    (c : Call) (cs : List Call) (p p' p'' : PendingImage)
    → Collected (c ∷ []) p p'
    → Collected cs p' p''
    → Collected (c ∷ cs) p p''
Collected-cons c cs p p' p'' h k = record {
  aliases =
      k.aliases
      ∙ ap (λ l. l ++ aliases_of cs) h.aliases
      ∙ append_assoc p.aliases (aliases_of (c ∷ [])) (aliases_of cs)
      ∙ ap (λ l. p.aliases ++ l) (sym (aliases_of-append (c ∷ []) cs));
  rows =
      k.rows
      ∙ ap (λ l. l ++ rows_of cs) h.rows
      ∙ append_assoc (occurrence_calls p.occurrences) (rows_of (c ∷ [])) (rows_of cs)
      ∙ ap (λ l. occurrence_calls p.occurrences ++ l) (sym (rows_of-append (c ∷ []) cs));
}

collect_call-Collected :
    (c : Call) (s : Context × PendingImage)
    → Ends (λ r. Collected (c ∷ []) s.1 r.1) (collect_call c s)
unfolding collect_call rows_of aliases_of
collect_call-Collected poll (ctx, p) = Ends-after (check_context ctx) λ ctx'. Ends-ok _ (record {
  aliases = sym (append-nil p.aliases);
  rows = sym (append-nil (occurrence_calls p.occurrences));
})
collect_call-Collected (occurrence pkg ctx lic) (c, p) = Ends-ok _ (record {
  aliases = sym (append-nil p.aliases);
  rows = occurrence_calls-append p.occurrences _;
})
collect_call-Collected (finding a fix assessment) (c, p) =
    let f : PendingFinding = record { advisory = a; fix = fix; assessment = assessment } in
    Ends-bind (add_to_last f p.occurrences) (add_to_last-LastAdded f p.occurrences)
      λ os e. Ends-ok _ (record { aliases = sym (append-nil p.aliases); rows = e })
collect_call-Collected (union ids) (c, p) =
    Ends-ok _ (record { aliases = refl; rows = sym (append-nil (occurrence_calls p.occurrences)) })

pub collect-Collected :
    (cs : List Call) (s : Context × PendingImage) → Ends (λ r. Collected cs s.1 r.1) (collect cs s)
unfolding collect rows_of aliases_of
collect-Collected [] s = Ends-ok s (record {
  aliases = sym (append-nil s.1.aliases);
  rows = sym (append-nil (occurrence_calls s.1.occurrences));
})
collect-Collected (c ∷ cs) s = Ends-bind (collect_call c s) (collect_call-Collected c s) λ s' h.
    record {
      holds = λ r e. Collected-cons c cs s.1 s'.1 r.1 h ((collect-Collected cs s').holds r e);
    }

-- The builder cannot tell a projection from the merge of what was collected from it.
pub replay-merge_calls :
    (cs : List Call) (p : PendingImage) (b b' : BatchBuilder)
    → b.alias.ctx ≡ none
    → Collected cs no_facts p
    → (replay cs b ≡ ok b') ↔ (replay (merge_calls p) b ≡ ok b')
replay-merge_calls cs p b b' h k =
    let (rows, aliases) = merge_calls-parts p in
    let same_aliases : aliases_of (merge_calls p) ≡ aliases_of cs = aliases ∙ k.aliases in
    let same_rows : rows_of (merge_calls p) ≡ rows_of cs = rows ∙ k.rows in
    let direct = replay-Reaches cs b b' h in
    let merged = replay-Reaches (merge_calls p) b b' h in
    (
      λ e. merged.1 (rw (same_aliases, same_rows) (direct.0 e)),
      λ e. direct.1 (rw (← same_aliases, ← same_rows) (merged.0 e)),
    )
