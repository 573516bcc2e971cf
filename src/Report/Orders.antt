-- ===== src/Report/Orders.antt =====
-- The orders in which go/report.go sorts severities and references: by their fields, in turn.
use osvpy.Prelude.{◌≡◌, ◌↔◌, Bool, true, false, ◌&&◌, if◌then◌else◌, arith}
use osvpy.Maps.{Comparable, list_eq, list_eq_iff, nat_comparable}
use osvpy.Text.{Text, text_ltb, text_ltb_irrefl, text_ltb_trans, text_ltb_total}
use osvpy.Sorting.{Ordered}
use osvpy.Report.{ReportSeverity, ReportReference}

-- `cmp.Or(strings.Compare(a, b), next) < 0`
abbrev pub compare_or : Text → Text → Bool → Bool
compare_or a b next = if text_ltb a b then true else if text_ltb b a then false else next

unfoldable pub severity_less : ReportSeverity → ReportSeverity → Bool
severity_less a b =
    compare_or a.type b.type (compare_or a.source b.source (text_ltb a.vector b.vector))

unfoldable pub reference_less : ReportReference → ReportReference → Bool
reference_less a b = compare_or a.type b.type (text_ltb a.url b.url)

abbrev text_eq : Text → Text → Bool
text_eq = list_eq nat_comparable.eq

text_eq_iff : (a b : Text) → (text_eq a b ≡ true) ↔ (a ≡ b)
text_eq_iff = list_eq_iff nat_comparable

unfoldable pub severity_eq : ReportSeverity → ReportSeverity → Bool
severity_eq a b = text_eq a.type b.type && text_eq a.source b.source && text_eq a.vector b.vector

unfoldable pub reference_eq : ReportReference → ReportReference → Bool
reference_eq a b = text_eq a.type b.type && text_eq a.url b.url

pub severity_eq_iff : (a b : ReportSeverity) → (severity_eq a b ≡ true) ↔ (a ≡ b)
unfolding severity_eq
severity_eq_iff a b = (
  λ e. ground (
    arith,
    text_eq_iff a.type b.type,
    text_eq_iff a.source b.source,
    text_eq_iff a.vector b.vector,
  ),
  λ e. ground (
    arith,
    text_eq_iff a.type b.type,
    text_eq_iff a.source b.source,
    text_eq_iff a.vector b.vector,
  ),
)

pub reference_eq_iff : (a b : ReportReference) → (reference_eq a b ≡ true) ↔ (a ≡ b)
unfolding reference_eq
reference_eq_iff a b = (
  λ e. ground (arith, text_eq_iff a.type b.type, text_eq_iff a.url b.url),
  λ e. ground (arith, text_eq_iff a.type b.type, text_eq_iff a.url b.url),
)

compare_or_trans :
    (a b c : Text) (m n k : Bool)
    → (m ≡ true → n ≡ true → k ≡ true)
    → compare_or a b m ≡ true
    → compare_or b c n ≡ true
    → compare_or a c k ≡ true
compare_or_trans a b c m n k next h e = ground (
  arith,
  text_ltb_trans a b c,
  text_ltb_trans c a b,
  text_ltb_trans b c a,
  text_ltb_total a b,
  text_ltb_total b c,
  next,
  text_ltb_irrefl a,
  text_ltb_irrefl c,
)

compare_or_total :
    (a b : Text) (m n : Bool)
    → compare_or a b m ≡ false
    → compare_or b a n ≡ false
    → (a ≡ b) × (m ≡ false) × (n ≡ false)
compare_or_total a b m n h e = ground (arith, text_ltb_total a b, text_ltb_irrefl a)

pub severity_less_trans :
    (a b c : ReportSeverity)
    → severity_less a b ≡ true
    → severity_less b c ≡ true
    → severity_less a c ≡ true
unfolding severity_less
severity_less_trans a b c =
    compare_or_trans a.type b.type c.type _ _ _ (
      compare_or_trans a.source b.source c.source _ _ _ (text_ltb_trans a.vector b.vector c.vector))

pub severity_less_total :
    (a b : ReportSeverity) → severity_less a b ≡ false → severity_less b a ≡ false → a ≡ b
unfolding severity_less
severity_less_total a b h e =
    let (t, m, n) = compare_or_total a.type b.type _ _ h e in
    let (s, m', n') = compare_or_total a.source b.source _ _ m n in
    ground (arith, t, s, text_ltb_total a.vector b.vector m' n')

pub severity_less_irrefl : (a : ReportSeverity) → severity_less a a ≡ false
unfolding severity_less
severity_less_irrefl a =
    ground (arith, text_ltb_irrefl a.type, text_ltb_irrefl a.source, text_ltb_irrefl a.vector)

pub reference_less_trans :
    (a b c : ReportReference)
    → reference_less a b ≡ true
    → reference_less b c ≡ true
    → reference_less a c ≡ true
unfolding reference_less
reference_less_trans a b c =
    compare_or_trans a.type b.type c.type _ _ _ (text_ltb_trans a.url b.url c.url)

pub reference_less_total :
    (a b : ReportReference) → reference_less a b ≡ false → reference_less b a ≡ false → a ≡ b
unfolding reference_less
reference_less_total a b h e =
    let (t, m, n) = compare_or_total a.type b.type _ _ h e in
    ground (arith, t, text_ltb_total a.url b.url m n)

pub reference_less_irrefl : (a : ReportReference) → reference_less a a ≡ false
unfolding reference_less
reference_less_irrefl a = ground (arith, text_ltb_irrefl a.type, text_ltb_irrefl a.url)

instance abbrev pub severity_comparable : Comparable ReportSeverity
severity_comparable = record { eq = severity_eq; eq_iff = severity_eq_iff }

instance abbrev pub reference_comparable : Comparable ReportReference
reference_comparable = record { eq = reference_eq; eq_iff = reference_eq_iff }

instance abbrev pub severity_ordered : Ordered ReportSeverity
severity_ordered = record {
  less = severity_less;
  irrefl = severity_less_irrefl;
  trans = severity_less_trans;
  total = severity_less_total;
}

instance abbrev pub reference_ordered : Ordered ReportReference
reference_ordered = record {
  less = reference_less;
  irrefl = reference_less_irrefl;
  trans = reference_less_trans;
  total = reference_less_total;
}
