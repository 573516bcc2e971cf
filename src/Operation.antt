-- ===== src/Operation.antt =====
-- go/operation.go: the status of a panic, and an operation whose goroutine has ended: `wait`,
-- `release`, `finish` and the cancellation. `done` is closed then, so that no call blocks.
pub mod Delivery
use osvpy.Prelude.{ℕ, Bool, true, false, ◌==◌, if◌then◌else◌, Option, some, none, [], ℤ, pos}
use osvpy.Text.{Text}
use osvpy.Report.{Slice}
use osvpy.Run.{Panic, report_overflow, canceled}
use osvpy.Slabs
use osvpy.Store.{ReportStore}

unfoldable pub panic_status : Panic → ℕ
panic_status report_overflow = 2
panic_status canceled = 4
panic_status other = 1

-- `reportStore{}`
abbrev pub no_report : ReportStore
no_report = record {
  indexes = [];
  images = Slabs.empty;
  packages = Slabs.empty;
  vulnerabilities = Slabs.empty;
  advisory_sources = Slabs.empty;
  contexts = Slabs.empty;
  assessments = Slabs.empty;
  licenses = Slabs.empty;
  fixes = Slabs.empty;
  occurrences = Slabs.empty;
  findings = Slabs.empty;
  advisory_vulnerabilities = Slabs.empty;
  strings = Slabs.empty;
  words = Slabs.empty;
}

-- go/bridge.go
pub record RegistryAuth : Type 0 where
  pub username : Text
  pub password : Text

pub record Request : Type 0 where
  pub inputs : Slice Text
  pub workers : ℤ
  pub languages : Slice Text
  pub image : Text
  pub all_packages : Bool
  pub auth : Option RegistryAuth
  pub platform : Text
  pub allowed_licenses : Slice Text

-- `request{}`
abbrev pub no_request : Request
no_request = record {
  inputs = none;
  workers = pos 0;
  languages = none;
  image = [];
  all_packages = false;
  auth = none;
  platform = [];
  allowed_licenses = none;
}

-- `is_canceled` is whether `ctx.Err()` is `context.Canceled`, its only error.
pub record Operation : Type 0 where
  pub request : Request
  pub is_canceled : Bool
  pub finished : Bool
  pub report : ReportStore
  pub status : ℕ

unfoldable pub cancel : Operation → Operation
cancel op = record op { is_canceled = true }

unfoldable pub wait : Operation → ℕ
unfolding panic_status
wait op = if op.is_canceled then panic_status canceled else op.status

unfoldable pub release : Operation → Operation
unfolding cancel
release op = record (cancel op) { report = no_report }

unfoldable pub finish : Operation → (Option ReportStore × ℕ) × Operation
unfolding wait
finish op =
    if wait op == 0
    then (if op.finished then ((none, 1), op) else (
      (some op.report, 0),
      record op { finished = true; report = no_report; request = no_request },
    ))
    else ((none, wait op), op)
