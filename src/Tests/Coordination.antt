-- ===== src/Tests/Coordination.antt =====
-- The theorems on the coordinator, at two inputs whose results are received in the other order.
use osvpy.Prelude.{
  ◌==◌, replicate, if◌then◌else◌, arith, ℕ, ◌≡◌, ◌<◌, List, refl, true, [], ◌∷◌, ◌++◌, length, some,
  none,
}
use osvpy.Text.{bytes}
use osvpy.Maps.{list_eq, lookup, insert}
use osvpy.Context.{check_context}
use osvpy.Slabs.{fresh}
use osvpy.Slabs
use osvpy.Run.{ok, Run, index, checked, store}
use osvpy.Operation.{Request, no_request}
use osvpy.Image.{Response, project_image}
use osvpy.Builder.{BatchBuilder, pending_image, merge, add}
use osvpy.Coordinator.{
  RunState, start, receive, remove, add_upto, inputs, Reach, here, onward, receives, scan_input,
}
use osvpy.Coordinator.Steps.{Reach-add_upto}
use osvpy.Coordinator.Progress.{Reach-running}
use osvpy.Coordinator.Completion.{Reach-receive, Reach-completes}
use osvpy.Tests.Scans.{lib, builder}

abbrev batch : Request
batch = record no_request {
  inputs = some (bytes "alpine" ∷ bytes "busybox" ∷ []);
  all_packages = true;
}

-- The second image cannot be scanned.
abbrev scan : Request → Run Response
scan r = ok (record {
  result = record { metadata = none; generic_findings = 0; results = [] };
  error =
      if list_eq (λ a b. a == b) r.image (bytes "busybox")
      then some (record { code = bytes "scan_failed"; message = bytes "no such image" })
      else none;
})

abbrev begin : RunState
begin = record { builder = builder; admitted = 2; merged = 0; running = 0 ∷ 1 ∷ []; pending = [] }

begun : start lib batch scan 2 builder ≡ ok begin
unfolding start check_context
begun = refl

abbrev early : RunState
early = elim (receive lib batch scan 1 (record begin { running = 0 ∷ [] })) [ ok c ↦ c | _ ↦ begin ]

first : receive lib batch scan 1 (record begin { running = 0 ∷ [] }) ≡ ok early
unfolding receive pending_image project_image list_eq lookup check_context index insert
first = refl

abbrev whole : BatchBuilder
whole = elim (add_upto lib batch scan 2 builder) [ ok b ↦ b | _ ↦ builder ]

all : add_upto lib batch scan 2 builder ≡ ok whole
unfolding add_upto scan_input add project_image list_eq lookup check_context index checked store
    fresh replicate Slabs.append
all = refl

abbrev late : RunState
late = elim (receive lib batch scan 0 (record early { running = [] })) [ ok c ↦ c | _ ↦ begin ]

second : receive lib batch scan 0 (record early { running = [] }) ≡ ok late
unfolding receive pending_image project_image list_eq lookup check_context index insert remove merge
    checked store fresh replicate Slabs.append add
second = refl

early_left : early.running ≡ 0 ∷ []
unfolding receive pending_image project_image list_eq lookup check_context index insert
early_left = refl

still_two : early.merged < 2
unfolding receive pending_image project_image list_eq lookup check_context index insert
still_two = omega arith

waits : Reach lib batch scan begin early
waits = onward here (receives (0 ∷ []) 1 [] (omega arith) refl first)

Reach-add_upto_example : add_upto lib batch scan late.merged builder ≡ ok late.builder
Reach-add_upto_example =
    Reach-add_upto lib batch scan builder 2 begin late refl begun
      (onward waits (receives [] 0 [] still_two early_left second))

Reach-running_example :
    (before : List ℕ) × (after : List ℕ) × (early.running ≡ before ++ early.merged ∷ after)
Reach-running_example =
    Reach-running lib batch scan builder 2 begin early (omega arith) begun waits still_two

Reach-receive_example :
    (e : RunState) × (receive lib batch scan 0 (record early { running = [] }) ≡ ok e)
    × (0 ≡ early.merged → early.merged < e.merged)
Reach-receive_example =
    Reach-receive lib batch scan builder whole 2 begin early [] 0 [] refl all (omega arith) begun
      waits early_left

Reach-completes_example :
    (e : RunState) × Reach lib batch scan early e
    × (e.merged ≡ length (inputs lib batch scan))
    × (e.builder ≡ whole)
Reach-completes_example =
    Reach-completes lib batch scan builder whole 2 begin early refl all (omega arith) begun waits
