-- ===== src/Projection/Fixes.antt =====
-- The status of a fix (go/report.go).
use osvpy.Prelude.{
  ℕ, ◌≡◌, refl, true, false, List, [], ◌∷◌, ◌++◌, none, arith, Bool-cases, inl, inr,
}
use osvpy.Text.{bytes}
use osvpy.Report.Canonical.{unique, canonical_severities}
use osvpy.Upstream.{Versions, PackageInfo, Affected, Range, Vulnerability}
use osvpy.Projection.{
  FixState, no_fix, is_git, fix_event, fix_events, fix_range, fix_ranges, fix_affected, fix_all,
  fix_result, package_fixes, is_about,
}
use osvpy.Projection.{add_version, is_versioned}

module _ (lib : Versions) (pkg : PackageInfo) where
  abbrev KeepsUnknown : (FixState → FixState) → Type 0
  KeepsUnknown f = (st : FixState) → st.unknown ≡ true → (f st).unknown ≡ true

  event-KeepsUnknown : (fix : List ℕ) → KeepsUnknown (fix_event lib pkg fix)
  unfolding fix_event add_version
  event-KeepsUnknown fix st h = ground arith

  events-KeepsUnknown : (fixes : List (List ℕ)) → KeepsUnknown (fix_events lib pkg fixes)
  unfolding fix_events
  events-KeepsUnknown [] st h = h
  events-KeepsUnknown (fix ∷ fixes) st h = events-KeepsUnknown fixes _ (event-KeepsUnknown fix st h)

  range-KeepsUnknown : (rg : Range) → KeepsUnknown (fix_range lib pkg rg)
  unfolding fix_range
  range-KeepsUnknown rg st h = elim (Bool-cases (is_git rg.type)) [
    | inl e ↦ rw e refl
    | inr e ↦ elim (Bool-cases (is_versioned rg.type)) [
      | inl v ↦ rw (e, v) (events-KeepsUnknown rg.events _ h)
      | inr v ↦ rw (e, v) (events-KeepsUnknown rg.events _ refl)
    ]
  ]

  ranges-KeepsUnknown : (rgs : List Range) → KeepsUnknown (fix_ranges lib pkg rgs)
  unfolding fix_ranges
  ranges-KeepsUnknown [] st h = h
  ranges-KeepsUnknown (rg ∷ rgs) st h = ranges-KeepsUnknown rgs _ (range-KeepsUnknown rg st h)

  affected-KeepsUnknown : (a : Affected) → KeepsUnknown (fix_affected lib pkg a)
  unfolding fix_affected
  affected-KeepsUnknown a st h = elim (Bool-cases (is_about lib pkg a)) [
    | inl e ↦ rw e (ranges-KeepsUnknown a.ranges _ h)
    | inr e ↦ rw e h
  ]

  all-KeepsUnknown : (entries : List Affected) → KeepsUnknown (fix_all lib pkg entries)
  unfolding fix_all
  all-KeepsUnknown [] st h = h
  all-KeepsUnknown (a ∷ rest) st h = all-KeepsUnknown rest _ (affected-KeepsUnknown a st h)

  git-unknown :
      (rg : Range) (st : FixState)
      → is_git rg.type ≡ true
      → (fix_range lib pkg rg st).unknown ≡ true
  unfolding fix_range
  git-unknown rg st h = rw h refl

  git_ranges-unknown :
      (before : List Range) (rg : Range) (after : List Range) (st : FixState)
      → is_git rg.type ≡ true
      → (fix_ranges lib pkg (before ++ rg ∷ after) st).unknown ≡ true
  unfolding fix_ranges
  git_ranges-unknown [] rg after st h = ranges-KeepsUnknown after _ (git-unknown rg st h)
  git_ranges-unknown (x ∷ before) rg after st h = git_ranges-unknown before rg after _ h

  git_all-unknown :
      (left : List Affected) (a : Affected) (right : List Affected)
      → (before : List Range) (rg : Range) (after : List Range) (st : FixState)
      → is_about lib pkg a ≡ true
      → a.ranges ≡ before ++ rg ∷ after
      → is_git rg.type ≡ true
      → (fix_all lib pkg (left ++ a ∷ right) st).unknown ≡ true
  unfolding fix_all fix_affected
  git_all-unknown [] a right before rg after st about at git =
      all-KeepsUnknown right _ (rw (about, at) (git_ranges-unknown before rg after _ git))
  git_all-unknown (x ∷ left) a right before rg after st about at git =
      git_all-unknown left a right before rg after _ about at git

  -- Where an entry of an advisory that is about the package has a range of type GIT, the status of
  -- the fix is `unknown`, whatever the other entries and ranges say.
  pub package_fixes-git :
      (left : List Affected) (a : Affected) (right : List Affected)
      → (before : List Range) (rg : Range) (after : List Range) (v : Vulnerability)
      → v.affected ≡ left ++ a ∷ right
      → a.ranges ≡ before ++ rg ∷ after
      → is_about lib pkg a ≡ true
      → is_git rg.type ≡ true
      → (package_fixes lib pkg v).status ≡ bytes "unknown"
  unfolding package_fixes fix_result
  package_fixes-git left a right before rg after v all at about git =
      rw (all, git_all-unknown left a right before rg after no_fix about at git) (ground (arith))

  -- Every entry is about another package.
  abbrev pub IsForeign : List Affected → Type 0
  IsForeign [] = Unit
  IsForeign (a ∷ rest) = (is_about lib pkg a ≡ false) × IsForeign rest

  foreign_lem :
      (entries : List Affected) (st : FixState)
      → IsForeign entries
      → fix_all lib pkg entries st ≡ st
  unfolding fix_all fix_affected
  foreign_lem [] st h = refl
  foreign_lem (a ∷ rest) st h = rw (h.0) (foreign_lem rest st h.1)

  -- Where every entry of an advisory is about another package, the fix has the status `unknown` and
  -- no versions, severities or urgencies.
  pub package_fixes-foreign :
      (v : Vulnerability)
      → IsForeign v.affected
      → package_fixes lib pkg v
        ≡ record { versions = none; status = bytes "unknown"; severities = none; urgencies = none }
  unfolding package_fixes fix_result unique canonical_severities
  package_fixes-foreign v h = rw (foreign_lem v.affected no_fix h) refl
