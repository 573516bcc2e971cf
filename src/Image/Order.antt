-- ===== src/Image/Order.antt =====
-- The order of a projection's calls: the first finding follows an occurrence.
use osvpy.Prelude.{
  ◌≡◌, refl, Bool, true, false, List, [], ◌∷◌, ◌++◌, Option, some, none, if◌then◌else◌, ltb,
  Bool-cases, Option-cases, inl, inr,
}
use osvpy.Text.{Text, bytes}
use osvpy.Maps.{nat_comparable, list_comparable}
use osvpy.Run.{Run, ok, panic, hang}
use osvpy.Report.{ReportPackage, ReportContext, ReportLicense, items}
use osvpy.Upstream.{
  PackageInfo, PackageVulns, PackageSource, ImageMetadata, VulnerabilityResults, Versions,
}
use osvpy.Operation.{Request}
use osvpy.Sink.{
  Call, poll, occurrence, finding, union, ProjectState, Project, pure, lift, ◌>>=◌, emit,
  diagnostic, after_calls, has_code,
}
use osvpy.Image.{
  Response, layer_at, project_layer, project_license, project_package, project_packages,
  project_sources, project_results, project_image, is_skipped,
}

-- No finding stands before the first occurrence.
unfoldable pub is_headed : List Call → Bool
is_headed [] = true
is_headed (occurrence pkg ctx lic ∷ cs) = true
is_headed (finding a fix assessment ∷ cs) = false
is_headed (other ∷ cs) = is_headed cs

is_headed-append :
    (cs ds : List Call) → is_headed cs ≡ true → is_headed ds ≡ true → is_headed (cs ++ ds) ≡ true
unfolding is_headed
is_headed-append [] ds h k = k
is_headed-append (occurrence p c l ∷ cs) ds h k = refl
is_headed-append (finding a f s ∷ cs) ds h k = h
is_headed-append (poll ∷ cs) ds h k = is_headed-append cs ds h k
is_headed-append (union ids ∷ cs) ds h k = is_headed-append cs ds h k

record IsHeaded {A : Type 0} (m : Project A) : Type 0 where
  calls : (s : ProjectState) → is_headed (m s).0 ≡ true

pure-IsHeaded : {A : Type 0} (a : A) → IsHeaded (pure a)
unfolding is_headed
pure-IsHeaded a = record { calls = λ s. refl }

lift-IsHeaded : {A : Type 0} (m : Run A) → IsHeaded (lift m)
unfolding is_headed
lift-IsHeaded hang = record { calls = λ s. refl }
lift-IsHeaded (panic p) = record { calls = λ s. refl }
lift-IsHeaded (ok a) = record { calls = λ s. refl }

after-IsHeaded :
    {A B : Type 0} (calls : List Call) (r : Run (A × ProjectState)) (f : A → Project B)
    → is_headed calls ≡ true
    → ((a : A) → IsHeaded (f a))
    → is_headed (after_calls calls r f).0 ≡ true
after-IsHeaded calls hang f h k = h
after-IsHeaded calls (panic p) f h k = h
after-IsHeaded calls (ok r) f h k = is_headed-append calls (f r.0 r.1).0 h ((k r.0).calls r.1)

bind-IsHeaded :
    {A B : Type 0} {m : Project A} {f : A → Project B}
    → IsHeaded m
    → ((a : A) → IsHeaded (f a))
    → IsHeaded (m >>= f)
unfolding ◌>>=◌
bind-IsHeaded {m = m} {f = f} h k = record {
  calls = λ s. after-IsHeaded (m s).0 (m s).1 f (h.calls s) k;
}

-- Behind an occurrence anything may follow.
occurrence-IsHeaded :
    {A : Type 0} (p : ReportPackage) (c : ReportContext) (l : ReportLicense) (m : Project A)
    → IsHeaded (emit (occurrence p c l) >>= λ _. m)
unfolding ◌>>=◌ is_headed
occurrence-IsHeaded p c l m = record { calls = λ s. refl }

poll-IsHeaded : IsHeaded (emit poll)
unfolding is_headed
poll-IsHeaded = record { calls = λ s. refl }

diagnostic-IsHeaded : (code message : Text) → IsHeaded (diagnostic code message)
unfolding diagnostic is_headed
diagnostic-IsHeaded code message = record {
  calls = λ s. elim (Bool-cases (has_code code (items s.image.diagnostics))) [
    | inl e ↦ rw e refl
    | inr e ↦ rw e refl
  ];
}

if-IsHeaded :
    {A : Type 0} (b : Bool) {m n : Project A}
    → IsHeaded m
    → IsHeaded n
    → IsHeaded (if b then m else n)
if-IsHeaded true h k = h
if-IsHeaded false h k = k

project_layer-IsHeaded :
    (p : PackageInfo) (metadata : Option ImageMetadata) → IsHeaded (project_layer p metadata)
unfolding project_layer
project_layer-IsHeaded p metadata = elim (Option-cases p.image_origin) [
  | inl e ↦ rw (e, project_layer) (pure-IsHeaded none)
  | inr (li, e) ↦ elim (Option-cases metadata) [
    | inl e' ↦ rw (e, e', project_layer) (pure-IsHeaded none)
    | inr (m, e') ↦ elim (Option-cases (layer_at li m.layers)) [
      | inl f ↦
          rw (e, e', f, project_layer)
            (bind-IsHeaded (diagnostic-IsHeaded _ _) λ _. pure-IsHeaded none)
      | inr (s, f) ↦ rw (e, e', f, project_layer) (pure-IsHeaded (some s))
    ]
  ]
]

project_license-IsHeaded : (req : Request) (pkg : PackageVulns) → IsHeaded (project_license req pkg)
unfolding project_license
project_license-IsHeaded req pkg =
    search (if-IsHeaded, bind-IsHeaded, diagnostic-IsHeaded, pure-IsHeaded)

module _ (lib : Versions) (req : Request) where
  project_package-IsHeaded :
      (metadata : Option ImageMetadata) (source : PackageSource) (pkg : PackageVulns)
      → IsHeaded (project_package lib req metadata source pkg)
  unfolding project_package
  project_package-IsHeaded metadata source pkg = search (
    bind-IsHeaded, if-IsHeaded, diagnostic-IsHeaded, pure-IsHeaded, project_layer-IsHeaded,
    project_license-IsHeaded, occurrence-IsHeaded,
  )

  project_packages-IsHeaded :
      (metadata : Option ImageMetadata) (source : PackageSource) (pkgs : List PackageVulns)
      → IsHeaded (project_packages lib req metadata source pkgs)
  unfolding project_packages
  project_packages-IsHeaded metadata source [] = pure-IsHeaded tt
  project_packages-IsHeaded metadata source (pkg ∷ pkgs) = bind-IsHeaded poll-IsHeaded λ _.
      bind-IsHeaded
        (if-IsHeaded pkg.info.deprecated
          (diagnostic-IsHeaded (bytes "unsupported_deprecation")
            (bytes "Package deprecation is outside vulnerability/license reporting"))
          (pure-IsHeaded tt))
        λ _.
          bind-IsHeaded
            (if-IsHeaded (is_skipped lib req pkg) (pure-IsHeaded tt)
              (project_package-IsHeaded metadata source pkg))
            λ _. project_packages-IsHeaded metadata source pkgs

  project_sources-IsHeaded :
      (metadata : Option ImageMetadata) (sources : List PackageSource)
      → IsHeaded (project_sources lib req metadata sources)
  unfolding project_sources
  project_sources-IsHeaded metadata [] = pure-IsHeaded tt
  project_sources-IsHeaded metadata (source ∷ sources) =
      bind-IsHeaded
        (if-IsHeaded (ltb 0 source.signals) (diagnostic-IsHeaded _ _) (pure-IsHeaded tt))
        λ _.
          bind-IsHeaded (project_packages-IsHeaded metadata source source.packages)
            λ _. project_sources-IsHeaded metadata sources

  project_results-IsHeaded :
      (result : VulnerabilityResults) → IsHeaded (project_results lib req result)
  unfolding project_results
  project_results-IsHeaded result =
      search
        (bind-IsHeaded, if-IsHeaded, diagnostic-IsHeaded, pure-IsHeaded, project_sources-IsHeaded)

  pub project_image-is_headed : (resp : Response) → is_headed (project_image lib req resp).0 ≡ true
  unfolding project_image is_headed
  project_image-is_headed resp = elim (Option-cases resp.error) [
    | inr (e, h) ↦ rw (h, project_image) refl
    | inl h ↦ rw (h, project_image) ((project_results-IsHeaded resp.result).calls _)
  ]
