-- ===== src/Alias/Root.antt =====
-- The loop of `root` (go/store.go).
use osvpy.Prelude.{
  ℕ, zero, suc, ◌≤◌, ◌<◌, ◌≡◌, ◌≢◌, refl, sym, ap, ◌∙◌, List, length, some, arith, false,
}
use osvpy.Prelude.{inl, inr, get_elem?, set, get_elem?-some_lt, get_elem?_of_lt, ◌==◌}
use native.Mathlib.Decide.{ℕ_discrete}
use osvpy.Text.{Text}
use osvpy.Run.{ok, ◌>>=◌, Returns, index_lem, store_lem}
use osvpy.Alias.{AliasState, find_root, root}
use osvpy.Alias.Order.{rank, rank-lt, rank-le-length}
use osvpy.Alias.Forest.{
  Better, IsForest, RootOf, here, up, RootOf-step, halved_self, halved-IsForest, halved-RootOf,
  climbs_twice,
}

-- The name of a better one has a smaller rank.
Better-rank :
    (names : List Text) (p i fuel : ℕ) (t : Text)
    → Better names p i
    → get_elem? names i ≡ some t
    → rank t names ≤ suc fuel
    → (u : Text) × (get_elem? names p ≡ some u) × (rank u names ≤ fuel)
Better-rank names p i fuel t b at h = (b.better, b.at_p, omega (arith, drop))
  where
    worse : b.worse ≡ t
    worse = ground (arith, b.at_i)

    drop : rank b.better names < rank t names
    drop = rank-lt b.better t names p b.at_p (rw (← worse) b.order)

pub RootOf-self :
    {parent : List ℕ} {i r : ℕ} → get_elem? parent i ≡ some i → RootOf parent i r → r ≡ i
RootOf-self at (here e) = refl
RootOf-self {i = i} at (up {p = p} e d) =
    let to : p ≡ i = ground arith in RootOf-self (rw to at) d ∙ to

pub RootOf-unique : {parent : List ℕ} {i q r : ℕ} → RootOf parent i q → RootOf parent i r → q ≡ r
RootOf-unique (here e) d = sym (RootOf-self e d)
RootOf-unique (up e d') d = RootOf-unique d' (RootOf-step e d)

module _ (names : List Text) where
  -- The parent of a name.
  parent_of :
      (parent : List ℕ)
      → IsForest names parent
      → (i : ℕ) (t : Text) → get_elem? names i ≡ some t
      → (p : ℕ) × (get_elem? parent i ≡ some p)
  parent_of parent f i t at =
      get_elem?_of_lt parent i (ground (arith, f.size, get_elem?-some_lt names i at))

  no-Better :
      (p i : ℕ) (t : Text) → Better names p i → get_elem? names i ≡ some t → rank t names ≤ 0 → ⊥
  no-Better p i t b at h =
      let worse : b.worse ≡ t = ground (arith, b.at_i) in
      let drop : rank b.better names < rank t names =
        rank-lt b.better t names p b.at_p (rw (← worse) b.order) in
      omega (arith, drop)

  pub has_root :
      (fuel : ℕ) (parent : List ℕ)
      → IsForest names parent
      → (i : ℕ) (t : Text) → get_elem? names i ≡ some t
      → rank t names ≤ fuel
      → (r : ℕ) × RootOf parent i r
  has_root zero parent f i t at h =
      let (p, e) = parent_of parent f i t at in
      elim (f.links i p e) [
        | inl same ↦ (i, here (e ∙ ap some same))
        | inr b ↦ absurd (no-Better p i t b at h)
      ]
  has_root (suc fuel) parent f i t at h =
      let (p, e) = parent_of parent f i t at in
      elim (f.links i p e) [
        | inl same ↦ (i, here (e ∙ ap some same))
        | inr b ↦
            let (u, at_p, less) = Better-rank names p i fuel t b at h in
            let (r, d) = has_root fuel parent f p u at_p less in (r, up e d)
      ]

  -- What the loop promises for `i`, whose root is `r`.
  abbrev Finds : ℕ → List ℕ → ℕ → ℕ → Type 0
  Finds fuel parent i r =
      Returns (find_root fuel parent i) λ res.
        (res.0 ≡ r) × IsForest names res.1 × ((j q : ℕ) → RootOf parent j q → RootOf res.1 j q)

  find_root_here :
      (fuel : ℕ) (parent : List ℕ)
      → IsForest names parent
      → (i r : ℕ) → get_elem? parent i ≡ some i
      → RootOf parent i r
      → Finds fuel parent i r
  unfolding find_root
  find_root_here zero parent f i r e d = (
    (i, parent),
    rw (index_lem parent i e, ◌>>=◌) (ground arith),
    (sym (RootOf-self e d), f, λ j q x. x),
  )
  find_root_here (suc fuel) parent f i r e d = (
    (i, parent),
    rw (index_lem parent i e, ◌>>=◌) (ground arith),
    (sym (RootOf-self e d), f, λ j q x. x),
  )

  find_root_up :
      (fuel : ℕ) (parent : List ℕ)
      → IsForest names parent
      → (i p g : ℕ) → get_elem? parent i ≡ some p
      → get_elem? parent p ≡ some g
      → p ≢ i
      → find_root (suc fuel) parent i ≡ find_root fuel (set parent i g) g
  unfolding find_root
  find_root_up fuel parent f i p g e e' ne =
      let off : (p == i) ≡ false = ground arith in
      let inside : i < length parent = get_elem?-some_lt parent i e in
      rw (index_lem parent i e, ◌>>=◌, off, index_lem parent p e', store_lem parent i g inside)

  find_root_lem :
      (fuel : ℕ) (parent : List ℕ)
      → IsForest names parent
      → (i r : ℕ) (t : Text) → get_elem? names i ≡ some t
      → rank t names ≤ fuel
      → RootOf parent i r
      → Finds fuel parent i r
  find_root_lem zero parent f i r t at h d =
      let (p, e) = parent_of parent f i t at in
      elim (f.links i p e) [
        | inl same ↦ find_root_here zero parent f i r (e ∙ ap some same) d
        | inr b ↦ absurd (no-Better p i t b at h)
      ]
  find_root_lem (suc fuel) parent f i r t at h d =
      let (p, e) = parent_of parent f i t at in
      elim (ℕ_discrete p i) [
        | yes same ↦ find_root_here (suc fuel) parent f i r (e ∙ ap some same) d
        | no ne ↦
            let b : Better names p i = elim (f.links i p e) [ inl x ↦ absurd (ne x) | inr b ↦ b ] in
            let (g, e') = parent_of parent f p b.better b.at_p in
            let b' = climbs_twice names parent f i p g e e' ne in
            let (u, at_g, less) = Better-rank names g i fuel t b' at h in
            let f' = halved-IsForest names parent f i p g e e' ne in
            let d' = halved-RootOf names parent f i p g e e' ne d in
            let next =
              find_root_lem fuel (set parent i g) f' g r u at_g less
                (RootOf-step (halved_self names parent f i p g e e' ne) d') in
            let (res, run, found) = next in
            (
              res,
              find_root_up fuel parent f i p g e e' ne ∙ run,
              (
                found.0,
                found.1,
                λ j q x. found.2 j q (halved-RootOf names parent f i p g e e' ne x),
              ),
            )
      ]

-- All that `root` promises.
pub root_lem :
    (id : ℕ) (s : AliasState)
    → IsForest s.names s.parent
    → id < length s.names
    → (r : ℕ) × (parent : List ℕ) × (root id s ≡ ok (r, record s { parent = parent }))
      × RootOf s.parent id r
      × IsForest s.names parent
      × ((j q : ℕ) → RootOf s.parent j q → RootOf parent j q)
unfolding root
root_lem id s f inside =
    let (t, at) = get_elem?_of_lt s.names id inside in
    let (r, d) = has_root s.names (length s.names) s.parent f id t at (rank-le-length t s.names) in
    let (res, run, found) =
      find_root_lem s.names (length s.names) s.parent f id r t at (rank-le-length t s.names) d in
    (res.0, res.1, rw (run, ◌>>=◌) refl, rw (found.0) d, found.1, found.2)

-- For a well-formed forest of parents and one of its names, `root` returns the end of the chain of
-- links from that name; the forest is still well-formed, with the same names.
pub root-RootOf :
    (id : ℕ) (s : AliasState)
    → IsForest s.names s.parent
    → id < length s.names
    → Returns
        (root id s)
        λ r. RootOf s.parent id r.0 × IsForest s.names r.1.parent × (r.1.names ≡ s.names)
root-RootOf id s f inside =
    let (r, parent, run, d, f', keep) = root_lem id s f inside in
    ((r, record s { parent = parent }), run, (d, f', refl))

-- For a well-formed forest of parents and one of its names, `root` returns, and a name whose root
-- was `q` before has the root `q` after the paths have been halved.
pub root-keeps :
    (id : ℕ) (s : AliasState) (j q : ℕ)
    → IsForest s.names s.parent
    → id < length s.names
    → RootOf s.parent j q
    → Returns (root id s) λ r. RootOf r.1.parent j q
root-keeps id s j q f inside x =
    let (r, parent, run, d, f', keep) = root_lem id s f inside in
    ((r, record s { parent = parent }), run, keep j q x)

-- Each name of a forest has a root.
pub a_root :
    (s : AliasState) (i : ℕ)
    → IsForest s.names s.parent
    → i < length s.names
    → (r : ℕ) × RootOf s.parent i r
a_root s i f inside = let (r, parent, run, d, f', keep) = root_lem i s f inside in (r, d)
