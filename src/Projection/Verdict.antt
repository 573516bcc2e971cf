-- ===== src/Projection/Verdict.antt =====
-- The status of a fix (go/report.go), by what the entries of the advisory say, in any order.
use osvpy.Prelude.{
  ◌≡◌, ◌≢◌, refl, ◌∙◌, true, false, Bool, List, [], ◌∷◌, none, some, Option, ℤ, pos, negsuc, length,
  ltb, arith, Bool-cases, inl, inr, not, ◌||◌, ◌&&◌, if◌then◌else◌,
}
use osvpy.Text.{Text, bytes}
use osvpy.Sorting.{sort, compact, text_ordered}
use osvpy.Maps.{nat_comparable, list_comparable}
use osvpy.Report.{Slice, items}
use osvpy.Report.Canonical.{unique, not_empty}
use osvpy.Upstream.{
  RangeType, range_ecosystem, range_semver, range_git, range_other, Versions, PackageInfo, Affected,
  Range, Vulnerability,
}
use osvpy.Projection.{
  FixState, no_fix, ecosystem, version_known, is_text, is_known, is_past, is_git, is_versioned,
  append_slice, add_version, fix_event, fix_events, fix_range, fix_ranges, fix_affected, fix_all,
  fix_result, package_fixes, is_about,
}

-- Some element passes the test.
unfoldable pub some_of {ℓ} : {A : Type ℓ} → (A → Bool) → List A → Bool
some_of p [] = false
some_of p (x ∷ xs) = p x || some_of p xs

module _ (lib : Versions) (pkg : PackageInfo) where
  -- The installed version cannot be compared with this one.
  unfoldable pub is_uncertain : Text → Bool
  is_uncertain fix =
      not (is_known lib pkg)
      || not (version_known lib fix pkg.ecosystem)
      || elim (lib.compare pkg.version (ecosystem pkg.ecosystem) fix) [
        | none ↦ true
        | some order ↦ false
      ]

  -- The installed version is at this one or past it.
  unfoldable pub is_reached : Text → Bool
  is_reached fix = elim (lib.compare pkg.version (ecosystem pkg.ecosystem) fix) [
    | none ↦ false
    | some order ↦ is_past order
  ]

  -- An event names a fix that cannot be compared, and one that has not been reached for certain.
  unfoldable pub doubts : Text → Bool
  doubts fix = not (is_text fix []) && is_uncertain fix

  unfoldable pub offers : Text → Bool
  offers fix = not (is_text fix []) && (is_uncertain fix || not (is_reached fix))

  unfoldable pub range_doubts : Range → Bool
  range_doubts rg = not (is_versioned rg.type) || some_of doubts rg.events

  unfoldable pub range_offers : Range → Bool
  range_offers rg = not (is_git rg.type) && some_of offers rg.events

  unfoldable pub entry_doubts : Affected → Bool
  entry_doubts a = is_about lib pkg a && some_of range_doubts a.ranges

  unfoldable pub entry_offers : Affected → Bool
  entry_offers a = is_about lib pkg a && some_of range_offers a.ranges

  unfoldable pub verdict : Vulnerability → Text
  verdict v =
      if not (some_of (is_about lib pkg) v.affected) || some_of entry_doubts v.affected
      then bytes "unknown"
      else if some_of entry_offers v.affected
      then bytes "reported"
      else bytes "no_reported_fix"

unfoldable has_some : {A : Type 0} → Slice A → Bool
has_some none = false
has_some (some []) = false
has_some (some (x ∷ xs)) = true

has_some-append_slice :
    {A : Type 0} (v : Slice A) (x : A) → has_some (append_slice v (x ∷ [])) ≡ true
unfolding append_slice has_some
has_some-append_slice none x = refl
has_some-append_slice (some []) x = refl
has_some-append_slice (some (y ∷ ys)) x = refl

filled : (xs : List Text) → xs ≢ [] → ltb 0 (length xs) ≡ true
filled [] h = absurd (h refl)
filled (x ∷ xs) h = ground arith

has_some-unique : (v : Slice Text) → ltb 0 (length (items (unique v))) ≡ has_some v
unfolding unique has_some
has_some-unique none = refl
has_some-unique (some []) = refl
has_some-unique (some (v ∷ vs)) = filled (compact (sort (v ∷ vs))) (not_empty v vs)

-- What a piece of the loop adds to the variables: a match, a doubt, a version.
record Adds (m u o : Bool) (st st' : FixState) : Type 0 where
  matched : st'.matched ≡ (st.matched || m)
  unknown : st'.unknown ≡ (st.unknown || u)
  offered : has_some st'.versions ≡ (has_some st.versions || o)

Adds-nothing : (st : FixState) → Adds false false false st st
Adds-nothing st = record { matched = ground arith; unknown = ground arith; offered = ground arith }

Adds-trans :
    {m u o m' u' o' : Bool} {st st' st'' : FixState}
    → Adds m u o st st'
    → Adds m' u' o' st' st''
    → Adds (m || m') (u || u') (o || o') st st''
Adds-trans h k = record {
  matched = ground (arith, h.matched, k.matched);
  unknown = ground (arith, h.unknown, k.unknown);
  offered = ground (arith, h.offered, k.offered);
}

-- From variables that differ from `st` in a match, in nothing that the status depends on besides.
matched-Adds :
    {u o : Bool} (st st' st'' : FixState)
    → st'.matched ≡ true
    → st'.unknown ≡ st.unknown
    → st'.versions ≡ st.versions
    → Adds false u o st' st''
    → Adds true u o st st''
matched-Adds st st' st'' m u o h = record {
  matched = ground (arith, h.matched);
  unknown = ground (arith, h.unknown);
  offered = h.offered ∙ rw o refl;
}

module _ (lib : Versions) (pkg : PackageInfo) where
  version-Adds :
      (fix : Text) (st : FixState) → Adds false false true st (add_version lib pkg fix st)
  unfolding add_version
  version-Adds fix st = record {
    matched = ground arith;
    unknown = ground arith;
    offered = ground (arith, has_some-append_slice st.versions fix);
  }

  doubt-Adds : (st : FixState) → Adds false true false st (record st { unknown = true })
  doubt-Adds st = record { matched = ground arith; unknown = ground arith; offered = ground arith }

  uncertain-Adds :
      (fix : Text) (st : FixState)
      → Adds false true true st (add_version lib pkg fix (record st { unknown = true }))
  uncertain-Adds fix st =
      Adds-trans (doubt-Adds st) (version-Adds fix (record st { unknown = true }))

  -- An event by the tests on it: it names no fix, the two versions are known, and how they compare.
  tested-Adds :
      (e k v : Bool) (c : Option ℤ) (fix : Text) (st : FixState)
      → Adds false
          (not e && (not k || not v || elim c [ none ↦ true | some order ↦ false ]))
          (not e
            && ((not k || not v || elim c [ none ↦ true | some order ↦ false ])
                || not (elim c [ none ↦ false | some order ↦ is_past order ])))
          st
          (if e
            then st
            else if not k || not v
            then add_version lib pkg fix (record st { unknown = true })
            else elim c [
              | none ↦ add_version lib pkg fix (record st { unknown = true })
              | some order ↦ if is_past order then st else add_version lib pkg fix st
            ])
  tested-Adds true k v c fix st = Adds-nothing st
  tested-Adds false false v c fix st = uncertain-Adds fix st
  tested-Adds false true false c fix st = uncertain-Adds fix st
  tested-Adds false true true none fix st = uncertain-Adds fix st
  tested-Adds false true true (some (pos n)) fix st = Adds-nothing st
  tested-Adds false true true (some (negsuc n)) fix st = version-Adds fix st

  event-Adds :
      (fix : Text) (st : FixState)
      → Adds false (doubts lib pkg fix) (offers lib pkg fix) st (fix_event lib pkg fix st)
  unfolding fix_event doubts offers is_uncertain is_reached is_known version_known
  event-Adds fix st =
      tested-Adds (is_text fix []) (is_known lib pkg) (version_known lib fix pkg.ecosystem)
        (lib.compare pkg.version (ecosystem pkg.ecosystem) fix) fix st

  events-Adds :
      (fixes : List Text) (st : FixState)
      → Adds false
          (some_of (doubts lib pkg) fixes)
          (some_of (offers lib pkg) fixes)
          st
          (fix_events lib pkg fixes st)
  unfolding fix_events some_of
  events-Adds [] st = Adds-nothing st
  events-Adds (fix ∷ fixes) st =
      Adds-trans (event-Adds fix st) (events-Adds fixes (fix_event lib pkg fix st))

  range-Adds :
      (rg : Range) (st : FixState)
      → Adds false (range_doubts lib pkg rg) (range_offers lib pkg rg) st (fix_range lib pkg rg st)
  unfolding fix_range range_doubts range_offers
  range-Adds rg st = elim (Bool-cases (is_versioned rg.type)) [
    | inl v ↦ elim (Bool-cases (is_git rg.type)) [
      | inl g ↦ absurd (both rg.type v g)
      | inr g ↦ rw (v, g) (events-Adds rg.events st)
    ]
    | inr v ↦ elim (Bool-cases (is_git rg.type)) [
      | inl g ↦ rw (v, g) (doubt-Adds st)
      | inr g ↦
          rw (v, g)
            (Adds-trans (doubt-Adds st) (events-Adds rg.events (record st { unknown = true })))
    ]
  ]
    where
      both : (t : RangeType) → is_versioned t ≡ true → is_git t ≡ true → ⊥
      both range_ecosystem v g = absurd (cc)
      both range_semver v g = absurd (cc)
      both range_git v g = absurd (cc)
      both range_other v g = absurd (cc)

  ranges-Adds :
      (rgs : List Range) (st : FixState)
      → Adds false
          (some_of (range_doubts lib pkg) rgs)
          (some_of (range_offers lib pkg) rgs)
          st
          (fix_ranges lib pkg rgs st)
  unfolding fix_ranges some_of
  ranges-Adds [] st = Adds-nothing st
  ranges-Adds (rg ∷ rgs) st =
      Adds-trans (range-Adds rg st) (ranges-Adds rgs (fix_range lib pkg rg st))

  affected-Adds :
      (a : Affected) (st : FixState)
      → Adds
          (is_about lib pkg a)
          (entry_doubts lib pkg a)
          (entry_offers lib pkg a)
          st
          (fix_affected lib pkg a st)
  unfolding fix_affected entry_doubts entry_offers
  affected-Adds a st = elim (Bool-cases (is_about lib pkg a)) [
    | inr e ↦ rw e (Adds-nothing st)
    | inl e ↦ rw e (matched-Adds st _ _ refl refl refl (ranges-Adds a.ranges _))
  ]

  all-Adds :
      (entries : List Affected) (st : FixState)
      → Adds
          (some_of (is_about lib pkg) entries)
          (some_of (entry_doubts lib pkg) entries)
          (some_of (entry_offers lib pkg) entries)
          st
          (fix_all lib pkg entries st)
  unfolding fix_all some_of
  all-Adds [] st = Adds-nothing st
  all-Adds (a ∷ rest) st =
      Adds-trans (affected-Adds a st) (all-Adds rest (fix_affected lib pkg a st))

  -- The status of a fix is `unknown` where no entry of the advisory is about the package, or where
  -- an entry about it has a range that is neither ECOSYSTEM nor SEMVER or an event that names a fix
  -- which cannot be compared with the installed version; else it is `reported` where an entry about
  -- it names a fix that the installed version has not reached, and `no_reported_fix` where none
  -- does.
  pub package_fixes-status :
      (v : Vulnerability) → (package_fixes lib pkg v).status ≡ verdict lib pkg v
  unfolding package_fixes fix_result verdict has_some
  package_fixes-status v =
      let h = all-Adds v.affected no_fix in
      let st = fix_all lib pkg v.affected no_fix in
      rw (has_some-unique st.versions, h.matched, h.unknown, h.offered) refl
