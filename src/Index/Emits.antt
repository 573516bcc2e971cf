-- ===== src/Index/Emits.antt =====
-- The edges that a visit (go/indexes.go) hands out, round by round.
use osvpy.Prelude.{
  ℕ, zero, suc, ◌+◌, ◌%◌, ◌≤◌, ◌<◌, ◌≡◌, refl, ap, subst, List, [], ◌∷◌, ◌++◌, length, Bool-cases,
  inl, inr, ◌==◌, arith, All, All-append, length-append,
}
use osvpy.Run.{Run, ok}
use osvpy.Index.Make.{Visit, polls, edge, Visits}
use osvpy.Index.Edges.{Edge, edges_of}
use osvpy.Index.Reading.{IsNumbered}
use osvpy.Index.Visits.{nothing, one_edge, followed_by, reading, polled_at, visits_from}

pub edges_of-append : (vs ws : List Visit) → edges_of (vs ++ ws) ≡ edges_of vs ++ edges_of ws
unfolding edges_of
edges_of-append [] ws = refl
edges_of-append (polls ∷ vs) ws = edges_of-append vs ws
edges_of-append (edge k v ∷ vs) ws = ap (λ es. (k, v) ∷ es) (edges_of-append vs ws)

-- A visit that ends, with at most `n` edges, all of which satisfy `P`.
pub record Emits (P : Edge → Type 0) (n : ℕ) (v : Visits) : Type 0 where
  pub ends : v.finally ≡ ok tt
  pub holds : All P (edges_of v.visits)
  pub few : length (edges_of v.visits) ≤ n

module _ (P : Edge → Type 0) where
  pub Emits-nothing : (n : ℕ) → Emits P n nothing
  unfolding edges_of
  Emits-nothing n = record { ends = refl; holds = tt; few = omega arith }

  pub Emits-one_edge : (k v : ℕ) → P (k, v) → Emits P 1 (one_edge k v)
  unfolding edges_of
  Emits-one_edge k v h = record { ends = refl; holds = (h, tt); few = omega arith }

  pub Emits-polled_at : (n i : ℕ) (v : Visits) → Emits P n v → Emits P n (polled_at i v)
  unfolding polled_at edges_of
  Emits-polled_at n i v h = elim (Bool-cases (i % 1024 == 0)) [
    | inl e ↦ rw e (record { ends = h.ends; holds = h.holds; few = h.few })
    | inr e ↦ rw e h
  ]

  pub Emits-reading :
      {A : Type 0} (n : ℕ) (code : Run A) (a : A) (next : A → Visits)
      → code ≡ ok a
      → Emits P n (next a)
      → Emits P n (reading code next)
  unfolding reading
  Emits-reading n code a next e h = rw e h

  pub Emits-followed_by :
      (m n : ℕ) (v w : Visits) → Emits P m v → Emits P n w → Emits P (m + n) (followed_by v w)
  unfolding followed_by
  Emits-followed_by m n v w h k = rw h.ends (record {
    ends = k.ends;
    holds =
        rw (edges_of-append v.visits w.visits)
          (All-append P (edges_of v.visits) (edges_of w.visits) h.holds k.holds);
    few =
        rw (edges_of-append v.visits w.visits)
          (omega (arith, length-append (edges_of v.visits) (edges_of w.visits), h.few, k.few));
  })

  pub Emits-visits_from :
      (step : ℕ → Visits) (rounds i : ℕ)
      → ((j : ℕ) → i ≤ j → j < i + rounds → Emits P 1 (step j))
      → Emits P rounds (visits_from step rounds i)
  unfolding visits_from
  Emits-visits_from step zero i h = Emits-nothing 0
  Emits-visits_from step (suc rounds) i h =
      subst (λ n. Emits P n (followed_by (step i) (visits_from step rounds (i + 1)))) (omega arith)
        (Emits-followed_by 1 rounds (step i) (visits_from step rounds (i + 1))
          (h i (omega arith) (omega arith))
          (Emits-visits_from step rounds (i + 1) (λ j low high. h j (omega arith) (omega arith))))

-- A loop that hands out one edge in each round, to the number of the round, with ascending keys.
pub visits_from-IsNumbered :
    (key : ℕ → ℕ) (step : ℕ → Visits) (rounds i : ℕ)
    → ((j : ℕ)
        → i ≤ j
        → j < i + rounds
        → ((step j).finally ≡ ok tt) × (edges_of (step j).visits ≡ (key j, j) ∷ []))
    → ((j l : ℕ) → j ≤ l → l < i + rounds → key j ≤ key l)
    → IsNumbered i (edges_of (visits_from step rounds i).visits)
unfolding visits_from followed_by edges_of
visits_from-IsNumbered key step zero i h up = tt
visits_from-IsNumbered key step (suc rounds) i h up =
    let (ends, one) = h i (omega arith) (omega arith) in
    let rest = visits_from step rounds (i + 1) in
    let later : Emits (λ (e : Edge). key i ≤ e.0) rounds rest =
      Emits-visits_from (λ (e : Edge). key i ≤ e.0) step rounds (i + 1)
        λ j low high.
          let (ends', one') = h j (omega arith) (omega arith) in
          record {
            ends = ends';
            holds = rw one' (up i j (omega arith) (omega arith), tt);
            few = rw one' (omega arith);
          } in
    rw (ends, edges_of-append (step i).visits rest.visits, one)
      (
        refl,
        later.holds,
        visits_from-IsNumbered key step rounds (i + 1)
            (λ j low high. h j (omega arith) (omega arith))
            (λ j l le high. up j l le (omega arith)),
      )
