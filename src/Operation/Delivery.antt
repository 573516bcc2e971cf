-- ===== src/Operation/Delivery.antt =====
-- The reports that a sequence of calls on an ended operation hands out.
use osvpy.Prelude.{
  ◌≤◌, ◌≡◌, refl, List, [], ◌∷◌, length, some, none, Option, true, arith, Bool-cases, inl, inr,
  ◌==◌,
}
use osvpy.Store.{ReportStore}
use osvpy.Operation.{Operation, cancel, release, finish, wait}

pub data Call : Type 0 where
  cancels releases finishes : Call

abbrev kept : Option ReportStore → List ReportStore → List ReportStore
kept none rs = rs
kept (some r) rs = r ∷ rs

-- The reports that the calls return, in their order.
unfoldable pub delivered : List Call → Operation → List ReportStore
unfolding cancel release finish
delivered [] op = []
delivered (cancels ∷ calls) op = delivered calls (cancel op)
delivered (releases ∷ calls) op = delivered calls (release op)
delivered (finishes ∷ calls) op = kept ((finish op).0.0) (delivered calls ((finish op).1))

none_left : (calls : List Call) (op : Operation) → op.finished ≡ true → delivered calls op ≡ []
unfolding delivered
none_left [] op h = refl
none_left (cancels ∷ calls) op h = none_left calls _ h
none_left (releases ∷ calls) op h = none_left calls _ h
none_left (finishes ∷ calls) op h = elim (Bool-cases (wait op == 0)) [
  | inl e ↦ rw (e, h) (none_left calls _ refl)
  | inr e ↦ rw e (none_left calls op h)
]

-- From any state of an operation whose goroutine has ended, any sequence of cancellations, releases
-- and finishes hands out at most one report.
pub delivered-once : (calls : List Call) (op : Operation) → length (delivered calls op) ≤ 1
unfolding delivered
delivered-once [] op = omega arith
delivered-once (cancels ∷ calls) op = delivered-once calls _
delivered-once (releases ∷ calls) op = delivered-once calls _
delivered-once (finishes ∷ calls) op = elim (Bool-cases (wait op == 0)) [
  | inr e ↦ rw e (delivered-once calls op)
  | inl e ↦ elim (Bool-cases op.finished) [
    | inl h ↦ rw (e, h) (delivered-once calls _)
    | inr h ↦ rw (e, h, none_left) (omega arith)
  ]
]
