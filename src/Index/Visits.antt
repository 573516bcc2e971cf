-- ===== src/Index/Visits.antt =====
-- The edges of the derived indexes (go/indexes.go): the callback `visit` of `buildIndexes`.
use osvpy.Prelude.{
  ℕ, zero, suc, ◌+◌, ◌%◌, List, [], ◌∷◌, ◌++◌, Bool, false, ◌||◌, ◌==◌, if◌then◌else◌, pos,
}
use osvpy.Text.{Text, bytes}
use osvpy.Maps.{list_eq, nat_comparable}
use osvpy.Run.{Run, ok, panic, hang}
use osvpy.Slabs
use osvpy.Store.{ReportStore}
use osvpy.Payload.Pack.{status_id}
use osvpy.Index.Make.{polls, edge, Visits}

abbrev pub is_name : Text → Text → Bool
is_name = list_eq nat_comparable.eq

abbrev pub named : Text → List Text → Bool
named name [] = false
named name (n ∷ ns) = is_name name n || named name ns

-- A visit that hands out no edge, and two visits in a row.
abbrev pub nothing : Visits
nothing = record { visits = []; finally = ok tt }

abbrev pub one_edge : ℕ → ℕ → Visits
one_edge key value = record { visits = edge key value ∷ []; finally = ok tt }

unfoldable pub followed_by : Visits → Visits → Visits
followed_by a b = elim a.finally [
  | ok u ↦ record { visits = a.visits ++ b.visits; finally = b.finally }
  | panic why ↦ a
  | hang ↦ a
]

-- The visit that goes on with what is read.
unfoldable pub reading : {A : Type 0} → Run A → (A → Visits) → Visits
reading hang next = record { visits = []; finally = hang }
reading (panic why) next = record { visits = []; finally = panic why }
reading (ok a) next = next a

-- One poll in 1024 rounds.
unfoldable pub polled_at : ℕ → Visits → Visits
polled_at i v = if i % 1024 == 0 then record v { visits = polls ∷ v.visits } else v

-- The rounds of a loop from round `i` on.
unfoldable pub visits_from : (ℕ → Visits) → ℕ → ℕ → Visits
unfolding followed_by
visits_from step zero i = nothing
visits_from step (suc rounds) i = followed_by (step i) (visits_from step rounds (i + 1))

module _ (r : ReportStore) (name : Text) where
  -- The `default` of the first switch: a package with a license that is not allowed.
  unfoldable pub noncompliant_edge : ℕ → ℕ → ℕ → Visits
  unfolding reading
  noncompliant_edge im p lic = reading (Slabs.at r.licenses (pos lic)) λ l.
      reading (status_id (bytes "noncompliant")) λ status.
        if l.status == status
        then (if is_name name (bytes "image_noncompliant_packages")
            then one_edge im p
            else one_edge p im)
        else nothing

  unfoldable pub visit_occurrence : ℕ → Visits
  unfolding reading polled_at noncompliant_edge
  visit_occurrence o = polled_at o (
      reading (Slabs.at r.occurrences (pos o)) λ row.
        if is_name name (bytes "image_occurrences")
        then one_edge row.image o
        else if is_name name (bytes "image_packages")
        then one_edge row.image row.package_id
        else if is_name name (bytes "package_present_images")
        then one_edge row.package_id row.image
        else noncompliant_edge row.image row.package_id row.license)

  unfoldable pub finding_edge : ℕ → ℕ → ℕ → ℕ → ℕ → ℕ → Visits
  finding_edge f o a v im p =
      if is_name name (bytes "image_findings")
      then one_edge im f
      else if is_name name (bytes "occurrence_findings")
      then one_edge o f
      else if is_name name (bytes "image_vulnerabilities")
      then one_edge im v
      else if is_name name (bytes "image_vulnerable_packages")
      then one_edge im p
      else if named name (bytes "package_vulnerable_images" ∷ bytes "package_affected_images" ∷ [])
      then one_edge p im
      else if is_name name (bytes "vulnerability_affected_images")
      then one_edge v im
      else if is_name name (bytes "advisory_affected_images")
      then one_edge a im
      else if is_name name (bytes "vulnerability_findings")
      then one_edge v f
      else if is_name name (bytes "advisory_findings")
      then one_edge a f
      else if is_name name (bytes "package_findings")
      then one_edge p f
      else nothing

  unfoldable pub visit_finding : ℕ → Visits
  unfolding reading polled_at finding_edge
  visit_finding f = polled_at f (
      reading (Slabs.at r.findings (pos f)) λ row.
        reading (Slabs.at r.advisory_vulnerabilities (pos row.advisory)) λ v.
          reading (Slabs.at r.occurrences (pos row.occurrence))
            λ occ. finding_edge f row.occurrence row.advisory v occ.image occ.package_id)

  unfoldable pub visit : Visits
  unfolding visit_occurrence visit_finding visits_from followed_by
  visit =
      let of_occurrences = named name (
        bytes "image_occurrences"
        ∷ bytes "image_packages"
        ∷ bytes "package_present_images"
        ∷ bytes "image_noncompliant_packages"
        ∷ bytes "package_noncompliant_images"
        ∷ bytes "package_affected_images"
        ∷ []) in
      let only_occurrences = named name (
        bytes "image_occurrences"
        ∷ bytes "image_packages"
        ∷ bytes "package_present_images"
        ∷ bytes "image_noncompliant_packages"
        ∷ bytes "package_noncompliant_images"
        ∷ []) in
      followed_by
        (if of_occurrences then visits_from visit_occurrence r.occurrences.n 0 else nothing)
        (if only_occurrences then nothing else visits_from visit_finding r.findings.n 0)
