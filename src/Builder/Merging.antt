-- ===== src/Builder/Merging.antt =====
-- `merge` (go/store.go) as a replay of calls.
use osvpy.Prelude.{◌≡◌, refl, ap, ap₂, sym, ◌∙◌, List, [], ◌∷◌, ◌++◌, append-nil}
use osvpy.Text.{Text}
use osvpy.Run.{◌>>=◌, bind-bind, under_bind}
use osvpy.Sink.{Call, poll, occurrence, finding, union}
use osvpy.Builder.{
  BatchBuilder, perform, replay, PendingFinding, PendingOccurrence, PendingImage, union_all,
  merge_findings, merge_occurrences,
}
use osvpy.Builder.Split.{rows_of, aliases_of}

abbrev pub finding_calls : List PendingFinding → List Call
finding_calls [] = []
finding_calls (f ∷ fs) = finding f.advisory f.fix f.assessment ∷ finding_calls fs

abbrev pub occurrence_calls : List PendingOccurrence → List Call
occurrence_calls [] = []
occurrence_calls (o ∷ os) =
    occurrence o.pkg o.context o.license ∷ (finding_calls o.findings ++ occurrence_calls os)

abbrev pub union_calls : List (List Text) → List Call
union_calls [] = []
union_calls (ids ∷ rest) = union ids ∷ union_calls rest

pub replay-append :
    (cs ds : List Call) (b : BatchBuilder) → replay (cs ++ ds) b ≡ (replay cs b >>= replay ds)
unfolding replay
replay-append [] ds b = refl
replay-append (c ∷ cs) ds b =
    under_bind (perform c b) (replay-append cs ds)
    ∙ sym (bind-bind (perform c b) (replay cs) (replay ds))

pub union_all-replay :
    (ids : List (List Text)) (b : BatchBuilder) → union_all ids b ≡ replay (union_calls ids) b
unfolding union_all replay
union_all-replay [] b = refl
union_all-replay (i ∷ ids) b = under_bind (perform (union i) b) (union_all-replay ids)

findings-replay :
    (fs : List PendingFinding) (b : BatchBuilder)
    → merge_findings fs b ≡ replay (finding_calls fs) b
unfolding merge_findings replay
findings-replay [] b = refl
findings-replay (f ∷ fs) b =
    under_bind (perform (finding f.advisory f.fix f.assessment) b) (findings-replay fs)

pub occurrences-replay :
    (os : List PendingOccurrence) (b : BatchBuilder)
    → merge_occurrences os b ≡ replay (occurrence_calls os) b
unfolding merge_occurrences replay
occurrences-replay [] b = refl
occurrences-replay (o ∷ os) b = under_bind (perform (occurrence o.pkg o.context o.license) b) λ b'.
    ap (λ m. m >>= merge_occurrences os) (findings-replay o.findings b')
    ∙ under_bind (replay (finding_calls o.findings) b') (occurrences-replay os)
    ∙ sym (replay-append (finding_calls o.findings) (occurrence_calls os) b')

pub rows_of-append : (cs ds : List Call) → rows_of (cs ++ ds) ≡ rows_of cs ++ rows_of ds
unfolding rows_of
rows_of-append [] ds = refl
rows_of-append (poll ∷ cs) ds = rows_of-append cs ds
rows_of-append (union ids ∷ cs) ds = rows_of-append cs ds
rows_of-append (occurrence p c l ∷ cs) ds = ap (◌∷◌ (occurrence p c l)) (rows_of-append cs ds)
rows_of-append (finding a f s ∷ cs) ds = ap (◌∷◌ (finding a f s)) (rows_of-append cs ds)

pub aliases_of-append : (cs ds : List Call) → aliases_of (cs ++ ds) ≡ aliases_of cs ++ aliases_of ds
unfolding aliases_of
aliases_of-append [] ds = refl
aliases_of-append (poll ∷ cs) ds = aliases_of-append cs ds
aliases_of-append (union ids ∷ cs) ds = ap (◌∷◌ ids) (aliases_of-append cs ds)
aliases_of-append (occurrence p c l ∷ cs) ds = aliases_of-append cs ds
aliases_of-append (finding a f s ∷ cs) ds = aliases_of-append cs ds

rows_of-union_calls : (ids : List (List Text)) → rows_of (union_calls ids) ≡ []
unfolding rows_of
rows_of-union_calls [] = refl
rows_of-union_calls (i ∷ ids) = rows_of-union_calls ids

aliases_of-union_calls : (ids : List (List Text)) → aliases_of (union_calls ids) ≡ ids
unfolding aliases_of
aliases_of-union_calls [] = refl
aliases_of-union_calls (i ∷ ids) = ap (◌∷◌ i) (aliases_of-union_calls ids)

finding_calls-parts :
    (fs : List PendingFinding)
    → (rows_of (finding_calls fs) ≡ finding_calls fs) × (aliases_of (finding_calls fs) ≡ [])
unfolding rows_of aliases_of
finding_calls-parts [] = (refl, refl)
finding_calls-parts (f ∷ fs) =
    let (r, a) = finding_calls-parts fs in (ap (◌∷◌ (finding f.advisory f.fix f.assessment)) r, a)

occurrence_calls-parts :
    (os : List PendingOccurrence)
    → (rows_of (occurrence_calls os) ≡ occurrence_calls os)
      × (aliases_of (occurrence_calls os) ≡ [])
unfolding rows_of aliases_of
occurrence_calls-parts [] = (refl, refl)
occurrence_calls-parts (o ∷ os) =
    let (r, a) = finding_calls-parts o.findings in
    let (r', a') = occurrence_calls-parts os in
    (
      ap (◌∷◌ (occurrence o.pkg o.context o.license))
          (rows_of-append (finding_calls o.findings) (occurrence_calls os) ∙ ap₂ ◌++◌ r r'),
      aliases_of-append (finding_calls o.findings) (occurrence_calls os) ∙ ap₂ ◌++◌ a a',
    )

-- What `merge` tells the builder.
abbrev pub merge_calls : PendingImage → List Call
merge_calls p = union_calls p.aliases ++ occurrence_calls p.occurrences

pub merge_calls-parts :
    (p : PendingImage)
    → (rows_of (merge_calls p) ≡ occurrence_calls p.occurrences)
      × (aliases_of (merge_calls p) ≡ p.aliases)
merge_calls-parts p =
    let (r, a) = occurrence_calls-parts p.occurrences in
    (
      rows_of-append (union_calls p.aliases) (occurrence_calls p.occurrences)
          ∙ ap₂ ◌++◌ (rows_of-union_calls p.aliases) r,
      aliases_of-append (union_calls p.aliases) (occurrence_calls p.occurrences)
          ∙ ap₂ ◌++◌ (aliases_of-union_calls p.aliases) a
          ∙ append-nil p.aliases,
    )
