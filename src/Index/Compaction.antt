-- ===== src/Index/Compaction.antt =====
-- The loop of `makeIndex` (go/indexes.go) that drops the repetitions of one key's values.
use osvpy.Prelude.{
  ℕ, suc, ◌+◌, ◌≤◌, ◌<◌, ◌≡◌, sym, ap, subst, ◌∙◌, List, [], ◌∷◌, length, set, none, pos, true,
  false, Bool-cases, inl, inr, ◌==◌, ==_iff, arith, get_elem?-some_lt, get_elem?-set_self,
}
use osvpy.Run.{ok, ◌>>=◌}
use osvpy.Maps.{nat_comparable}
use osvpy.Sorting.{compact, compact_from}
use osvpy.Slabs.{Slabs, uint32_zero}
use osvpy.Slabs
use osvpy.Slabs.Rows.{Models}
use osvpy.Slabs.Laws.{at-some, write-set}
use osvpy.Index.Make.{compact_members}
use osvpy.Index.Counting.{poll_at-none}
use osvpy.Index.Edges.{
  At, At-head, At-tail, At-cons, At-nil, At-above, Outside, Outside-refl, Outside-trans,
  Outside-widen, set-Outside,
}

module _ (start : ℕ) where
  -- What the loop leaves from position `n` on, with everything from `b` on as it was.
  abbrev pub Packs : ℕ → ℕ → List ℕ → List ℕ → Slabs ℕ → Type 0
  Packs n b ms vs members' = (ms' : List ℕ) × Models members' ms' × At ms' n vs × Outside n b ms ms'

  -- A value is kept: it is written, and the rest follows it.
  keep_value :
      (v : ℕ) (vs rest : List ℕ) (j n : ℕ) (members : Slabs ℕ) (ms : List ℕ)
      → Models members ms
      → At ms j (v ∷ vs)
      → n ≤ j
      → (members1 : Slabs ℕ) × (Slabs.write members (pos n) v ≡ ok members1)
        × Models members1 (set ms n v)
        × At (set ms n v) (j + 1) vs
        × ((members2 : Slabs ℕ)
            → Packs (n + 1) (j + 1 + length vs) (set ms n v) rest members2
            → Packs n (j + suc (length vs)) ms (v ∷ rest) members2)
  keep_value v vs rest j n members ms m at low =
      let inside = get_elem?-some_lt ms j (At-head ms j v vs at) in
      let (members1, run, m1) = write-set members ms m n v (omega (arith, inside)) in
      let ms1 = set ms n v in
      let out = set-Outside n (j + 1) n v ms (omega arith) (omega arith) in
      (
        members1,
        run,
        m1,
        At-above n (j + 1) (j + 1) ms ms1 vs out (omega arith) (At-tail ms j v vs at),
        λ members2 packs.
            let (ms2, m2, at2, out2) = packs in
            let here =
              out2.lower n (omega arith) ∙ get_elem?-set_self ms n v (omega (arith, inside)) in
            (
              ms2,
              m2,
              At-cons ms2 n v rest here at2,
              Outside-trans n (j + suc (length vs)) ms ms1 ms2
                  (Outside-widen n (j + 1) n (j + suc (length vs)) ms ms1 (omega arith)
                    (omega arith) out)
                  (Outside-widen (n + 1) (j + 1 + length vs) n (j + suc (length vs)) ms1 ms2
                    (omega arith) (omega arith) out2),
            ),
      )

  compact_tail :
      (vs : List ℕ) (previous j n : ℕ) (members : Slabs ℕ) (ms : List ℕ)
      → Models members ms
      → At ms j vs
      → n ≤ j
      → start < j
      → (members' : Slabs ℕ) × (compact_members (length vs) start j n previous none members
          ≡ ok (n + length (compact_from previous vs), none, members'))
        × Packs n (j + length vs) ms (compact_from previous vs) members'
  unfolding compact_members compact_from
  compact_tail [] previous j n members ms m at low past = (
    members,
    ap (λ k. ok (k, none, members)) (omega arith),
    (ms, m, At-nil ms n, Outside-refl n (j + 0) ms),
  )
  compact_tail (v ∷ vs) previous j n members ms m at low past =
      let first : (j == start) ≡ false = ground arith in
      let read = at-some members ms m j (At-head ms j v vs at) in
      elim (Bool-cases (previous == v)) [
        | inl e ↦
            let same : previous ≡ v = (==_iff previous v).0 e in
            let test : (v == previous) ≡ true = ground arith in
            let (members', run, (ms', m', at', out)) =
              compact_tail vs v (j + 1) n members ms m (At-tail ms j v vs at) (omega arith)
                (omega arith) in
            (
              members',
              rw (poll_at-none j, ◌>>=◌, read, first, test, e)
                  (subst
                    (λ q.
                      compact_members (length vs) start (j + 1) n q none members
                      ≡ ok (n + length (compact_from v vs), none, members'))
                    (sym same) run),
              rw e (
                ms',
                m',
                at',
                Outside-widen n (j + 1 + length vs) n (j + suc (length vs)) ms ms' (omega arith)
                    (omega arith) out,
              ),
            )
        | inr e ↦
            let test : (v == previous) ≡ false = ground arith in
            let (members1, wrote, m1, at1, packed) =
              keep_value v vs (compact_from v vs) j n members ms m at low in
            let (members2, run, left) =
              compact_tail vs v (j + 1) (n + 1) members1 (set ms n v) m1 at1 (omega arith)
                (omega arith) in
            (
              members2,
              rw (poll_at-none j, ◌>>=◌, read, first, test, wrote, e)
                  (run ∙ ap (λ k. ok (k, none, members2)) (omega arith)),
              rw e (packed members2 left),
            )
      ]

  -- The values that are kept move to position `n`.
  pub compact_members_lem :
      (vs : List ℕ) (n : ℕ) (members : Slabs ℕ) (ms : List ℕ)
      → Models members ms
      → At ms start vs
      → n ≤ start
      → (members' : Slabs ℕ) × (compact_members (length vs) start start n 0 none members
          ≡ ok (n + length (compact vs), none, members'))
        × Packs n (start + length vs) ms (compact vs) members'
  unfolding compact_members compact
  compact_members_lem [] n members ms m at low = (
    members,
    ap (λ k. ok (k, none, members)) (omega arith),
    (ms, m, At-nil ms n, Outside-refl n (start + 0) ms),
  )
  compact_members_lem (v ∷ vs) n members ms m at low =
      let first : (start == start) ≡ true = ground arith in
      let read = at-some members ms m start (At-head ms start v vs at) in
      let (members1, wrote, m1, at1, packed) =
        keep_value v vs (compact_from v vs) start n members ms m at low in
      let (members2, run, left) =
        compact_tail vs v (start + 1) (n + 1) members1 (set ms n v) m1 at1 (omega arith)
          (omega arith) in
      (
        members2,
        rw (poll_at-none start, ◌>>=◌, read, first, wrote)
            (run ∙ ap (λ k. ok (k, none, members2)) (omega arith)),
        packed members2 left,
      )
