-- ===== src/Index/Sinking.antt =====
-- The sorting of a window of the members (go/indexes.go), in the table.
use osvpy.Prelude.{
  get_elem?_of_lt, ℕ, suc, ◌+◌, ◌-◌, ◌≤◌, ◌<◌, ◌≡◌, refl, sym, ap, subst, ◌∙◌, List, [], ◌∷◌,
  length, set, get_elem?, some, none, Bool-cases, inl, inr, ltb, arith, get_elem?-some_lt,
  get_elem?-set_self, get_elem?-set_ne, length-set,
}
use native.Mathlib.Decide.{ℕ_discrete}
use osvpy.Run.{ok, ◌>>=◌}
use osvpy.Sorting.{place}
use osvpy.Slabs.{Slabs, uint32_zero}
use osvpy.Slabs.Rows.{Models}
use osvpy.Slabs.Laws.{at-some}
use osvpy.Index.{MemberWindow, window_less, window_len}
use osvpy.Index.Window.{window_swap_lem}
use osvpy.Index.Make.{sink, sink_from, sort_window}
use osvpy.Index.Edges.{At, Outside, Outside-refl, Outside-trans, set-Outside}
use osvpy.Index.Ordering.{
  sunk, reverse_onto, inserted, ordered, get_elem?-reverse_onto, set-reverse_onto, length-sunk,
  length-reverse_onto,
}

set-At :
    (ms vs : List ℕ) (o i v : ℕ) → i < length vs → At ms o vs → At (set ms (o + i) v) o (set vs i v)
set-At ms vs o i v inside h = record {
  found = λ j x e. elim (ℕ_discrete i j) [
    | yes same ↦
        let it : v ≡ x = ground (arith, get_elem?-set_self vs i v inside) in
        let (old, there) = get_elem?_of_lt vs i inside in
        let room = get_elem?-some_lt ms (o + i) (h.found i old there) in
        subst (λ k. get_elem? (set ms (o + i) v) (o + k) ≡ some x) same
          (get_elem?-set_self ms (o + i) v room ∙ ap some it)
    | no ne ↦
        get_elem?-set_ne ms (o + i) (o + j) v (λ d. ne (omega arith))
        ∙ h.found j x (sym (get_elem?-set_ne vs i j v ne) ∙ e)
  ];
}

swapped :
    (rs : List ℕ) (x y : ℕ) (zs : List ℕ)
    → set (set (reverse_onto rs (y ∷ x ∷ zs)) (suc (length rs)) y) (length rs) x
      ≡ reverse_onto rs (x ∷ y ∷ zs)
swapped rs x y zs =
    let l = y ∷ x ∷ zs in
    let i : suc (length rs) ≡ length rs + 1 = omega arith in
    let j : length rs ≡ length rs + 0 = omega arith in
    ap (λ k. set (set (reverse_onto rs l) k y) (length rs) x) i
    ∙ ap (λ r. set r (length rs) x) (set-reverse_onto rs l 1 y)
    ∙ ap (λ k. set (reverse_onto rs (y ∷ y ∷ zs)) k x) j
    ∙ set-reverse_onto rs (y ∷ y ∷ zs) 0 x

module _ (start stop : ℕ) where
  abbrev w : MemberWindow
  w = record { start = start; stop = stop }

  -- What a part of the sorting leaves: `vs` in the window, and the rest as it was.
  abbrev Leaves : List ℕ → List ℕ → Slabs ℕ → Type 0
  Leaves ms vs members' =
      (ms' : List ℕ) × Models members' ms' × At ms' start vs × Outside start stop ms ms'

  sink_lem :
      (rs : List ℕ) (x : ℕ) (zs : List ℕ) (members : Slabs ℕ) (ms : List ℕ)
      → Models members ms
      → At ms start (reverse_onto rs (x ∷ zs))
      → start + (length rs + 1) ≤ stop
      → (members' : Slabs ℕ) × (sink w (length rs) none members ≡ ok (none, members'))
        × Leaves ms (reverse_onto (sunk x rs) zs) members'
  unfolding sink place reverse_onto
  sink_lem [] x zs members ms m at room = (members, refl, (ms, m, at, Outside-refl start stop ms))
  sink_lem (y ∷ rs) x zs members ms m at room =
      let l = y ∷ x ∷ zs in
      let long = length-reverse_onto rs l in
      let at_j : get_elem? ms (start + length rs) ≡ some y =
        at.found (length rs) y
          (ap (get_elem? (reverse_onto rs l)) (omega arith) ∙ get_elem?-reverse_onto rs l 0) in
      let at_i : get_elem? ms (start + suc (length rs)) ≡ some x =
        at.found (suc (length rs)) x
          (ap (get_elem? (reverse_onto rs l)) (omega arith) ∙ get_elem?-reverse_onto rs l 1) in
      let compared : window_less w (suc (length rs)) (length rs) members ≡ ok (ltb x y) =
        unfold window_less in
        rw
          (
            at-some members ms m (start + suc (length rs)) at_i,
            ◌>>=◌,
            at-some members ms m (start + length rs) at_j,
          )
          refl in
      elim (Bool-cases (ltb x y)) [
        | inr e ↦
            (members, rw (compared, ◌>>=◌, e) refl, (ms, m, rw e at, Outside-refl start stop ms))
        | inl e ↦
            let (r, run, (calm, m1)) =
              window_swap_lem w (suc (length rs)) (length rs) members ms x y m at_i at_j in
            let ms1 = set (set ms (start + suc (length rs)) y) (start + length rs) x in
            let at1 : At ms1 start (reverse_onto rs (x ∷ y ∷ zs)) =
              subst (At ms1 start) (swapped rs x y zs) (
                set-At (set ms (start + suc (length rs)) y)
                  (set (reverse_onto rs l) (suc (length rs)) y) start (length rs) x
                  (omega (arith, long, length-set (reverse_onto rs l) (suc (length rs)) y))
                  (set-At ms (reverse_onto rs l) start (suc (length rs)) y (omega (arith, long))
                    at)) in
            let (members2, runs, (ms2, m2, at2, out2)) =
              sink_lem rs x (y ∷ zs) r.1 ms1 m1 at1 (omega arith) in
            let out1 : Outside start stop ms ms1 =
              let ms' = set ms (start + suc (length rs)) y in
              Outside-trans start stop ms ms' ms1
                (set-Outside start stop (start + suc (length rs)) y ms (omega arith) (omega arith))
                (set-Outside start stop (start + length rs) x ms' (omega arith) (omega arith)) in
            (
              members2,
              rw (compared, ◌>>=◌, e, run, calm) runs,
              (ms2, m2, rw e at2, Outside-trans start stop ms ms1 ms2 out1 out2),
            )
      ]

  sink_from_lem :
      (rs vs : List ℕ) (members : Slabs ℕ) (ms : List ℕ)
      → Models members ms
      → At ms start (reverse_onto rs vs)
      → start + (length rs + length vs) ≤ stop
      → (members' : Slabs ℕ) × (sink_from w (length vs) (length rs) none members
          ≡ ok (none, members'))
        × Leaves ms (reverse_onto (inserted rs vs) []) members'
  unfolding sink_from inserted
  sink_from_lem rs [] members ms m at room =
      (members, refl, (ms, m, at, Outside-refl start stop ms))
  sink_from_lem rs (x ∷ vs) members ms m at room =
      let (members1, run, (ms1, m1, at1, out1)) = sink_lem rs x vs members ms m at (omega arith) in
      let longer : length (sunk x rs) ≡ length rs + 1 = omega (arith, length-sunk x rs) in
      let (members2, runs, (ms2, m2, at2, out2)) =
        sink_from_lem (sunk x rs) vs members1 ms1 m1 at1 (omega (arith, longer)) in
      (
        members2,
        rw (run, ◌>>=◌)
            (subst (λ j. sink_from w (length vs) j none members1 ≡ ok (none, members2)) longer
              runs),
        (ms2, m2, at2, Outside-trans start stop ms ms1 ms2 out1 out2),
      )

-- The values of the window are put in order, and nothing else changes.
pub sort_window_lem :
    (start stop : ℕ) (vs : List ℕ) (members : Slabs ℕ) (ms : List ℕ)
    → stop ≡ start + length vs
    → Models members ms
    → At ms start vs
    → (members' : Slabs ℕ) × (sort_window (record { start = start; stop = stop }) none members
        ≡ ok (none, members'))
      × ((ms' : List ℕ) × Models members' ms'
          × At ms' start (ordered vs)
          × Outside start stop ms ms')
unfolding sort_window window_len ordered reverse_onto
sort_window_lem start stop vs members ms e m at =
    let wide : stop - start ≡ length vs = omega arith in
    let (members', run, left) = sink_from_lem start stop [] vs members ms m at (omega arith) in
    (members', ap (λ n. sink_from (w start stop) n 0 none members) wide ∙ run, left)
