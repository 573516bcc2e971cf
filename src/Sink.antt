-- ===== src/Sink.antt =====
-- `projectionSink` (go/store.go): what `projectImage` tells it, in order, until it returns or panics.
-- The sink's methods return nothing, so that a run of the projection is its calls and its end.
use osvpy.Prelude.{ℕ, Bool, List, [], ◌∷◌, ◌++◌, some, if◌then◌else◌, ◌||◌, false}
use osvpy.Text.{Text}
use osvpy.Maps.{Map, list_eq, nat_comparable}
use osvpy.Run.{Run, ok, panic, hang}
use osvpy.Report.{
  items, ReportPackage, ReportContext, ReportLicense, ReportAdvisory, ReportFix, ReportAssessment,
  ReportImage, NativeError,
}

-- The address of a projected advisory, and what stands there.
pub record AdvisoryPointer : Type 0 where
  pub address : ℕ
  pub value : ReportAdvisory

-- A call, where `poll` is a `checkContext` of the projection.
pub data Call : Type 0 where
  poll : Call
  occurrence : ReportPackage → ReportContext → ReportLicense → Call
  finding : AdvisoryPointer → ReportFix → ReportAssessment → Call
  union : List Text → Call

-- The variables `im` and `local` of `projectImage`.
pub record ProjectState : Type 0 where
  pub image : ReportImage
  pub local : Map ℕ ReportAdvisory

abbrev pub Project : Type 0 → Type 0
Project A = ProjectState → List Call × Run (A × ProjectState)

abbrev pub pure : {A : Type 0} → A → Project A
pure a s = ([], ok (a, s))

abbrev pub lift : {A : Type 0} → Run A → Project A
lift (ok a) s = ([], ok (a, s))
lift (panic p) s = ([], panic p)
lift hang s = ([], hang)

abbrev pub after_calls :
    {A B : Type 0}
    → List Call
    → Run (A × ProjectState)
    → (A → Project B)
    → List Call × Run (B × ProjectState)
after_calls calls (ok r) f = let next = f r.0 r.1 in (calls ++ next.0, next.1)
after_calls calls (panic p) f = (calls, panic p)
after_calls calls hang f = (calls, hang)

infixl 5 ◌>>=◌ ◌>>◌
unfoldable pub ◌>>=◌ : {A B : Type 0} → Project A → (A → Project B) → Project B
◌>>=◌ m f s = let r = m s in after_calls r.0 r.1 f

abbrev pub ◌>>◌ : {A B : Type 0} → Project A → Project B → Project B
m >> k = m >>= λ _. k

abbrev pub emit : Call → Project (Unit {0})
emit c s = (c ∷ [], ok (tt, s))

abbrev pub has_code : Text → List NativeError → Bool
has_code code [] = false
has_code code (d ∷ ds) = list_eq nat_comparable.eq d.code code || has_code code ds

-- The closure `diagnostic`.
unfoldable pub diagnostic : Text → Text → Project (Unit {0})
diagnostic code message s =
    let found : List NativeError = items s.image.diagnostics in
    if has_code code found then ([], ok (tt, s)) else (
      [],
      ok (
        tt,
        record s {
          image = record s.image {
            diagnostics = some (found ++ record { code = code; message = message } ∷ []);
          };
        },
      ),
    )
