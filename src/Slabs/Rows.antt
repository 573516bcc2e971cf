-- ===== src/Slabs/Rows.antt =====
-- What a slab table stands for: the list of its rows.
use osvpy.Prelude.{ℕ, zero, suc, ◌+◌, ◌-◌, ◌*◌, ◌/◌, ◌%◌, ◌<◌, ◌≤◌, ◌≡◌, refl, ap, sym, ◌∙◌}
use osvpy.Prelude.{List, [], ◌∷◌, ◌++◌, flatten, length, set, get_elem?, some, replicate}
use osvpy.Prelude.{
  All, arith, append_assoc, append-nil, length-append, length-replicate, length-set,
}
use osvpy.Prelude.{get_elem?-append_left, get_elem?-append_right, set-append_left, set-append_right}
use osvpy.Prelude.{All-append, All-set, All-get_elem?, get_elem?_of_lt}
use osvpy.Prelude.{replicate-append}
use osvpy.Slabs.{Slabs, Zero, slab_size, fresh, put}
use osvpy.Run.{◌>>=◌, Returns, index_lem, store_lem}

module _ {A : Type 0} where
  abbrev pub IsFull : List A → Type 0
  IsFull c = length c ≡ 1024

  pub length-flatten : (cs : List (List A)) → All IsFull cs → length (flatten cs) ≡ 1024 * length cs
  unfolding flatten
  length-flatten [] h = omega arith
  length-flatten (c ∷ cs) h =
      omega (arith, length-append c (flatten cs), length-flatten cs h.1, h.0)

  pub flatten-append : (cs ds : List (List A)) → flatten (cs ++ ds) ≡ flatten cs ++ flatten ds
  unfolding flatten
  flatten-append [] ds = refl
  flatten-append (c ∷ cs) ds =
      rw (flatten-append cs ds) (sym (append_assoc c (flatten cs) (flatten ds)))

  get_elem?-flatten :
      (cs : List (List A)) (q r : ℕ) {c : List A}
      → All IsFull cs
      → r < 1024
      → get_elem? cs q ≡ some c
      → get_elem? (flatten cs) (1024 * q + r) ≡ get_elem? c r
  unfolding flatten
  get_elem?-flatten [] q r h lt e = absurd (ground arith)
  get_elem?-flatten (d ∷ cs) zero r {c} h lt e =
      let same : 1024 * 0 + r ≡ r = omega arith in
      let head : d ≡ c = cc in
      rw same
        (rw (get_elem?-append_left d (flatten cs) r (omega arith)) (ap (λ x. get_elem? x r) head))
  get_elem?-flatten (d ∷ cs) (suc q) r h lt e =
      let same : 1024 * suc q + r ≡ length d + (1024 * q + r) = omega arith in
      rw same
        (get_elem?-append_right d (flatten cs) (1024 * q + r) ∙ get_elem?-flatten cs q r h.1 lt e)

  flatten-set :
      (cs : List (List A)) (q r : ℕ) (v : A) {c : List A}
      → All IsFull cs
      → r < 1024
      → get_elem? cs q ≡ some c
      → flatten (set cs q (set c r v)) ≡ set (flatten cs) (1024 * q + r) v
  unfolding flatten
  flatten-set [] q r v h lt e = absurd (ground arith)
  flatten-set (d ∷ cs) zero r v {c} h lt e =
      let same : 1024 * 0 + r ≡ r = omega arith in
      let head : c ≡ d = cc in rw (same, set-append_left d (flatten cs) r v (omega arith), head)
  flatten-set (d ∷ cs) (suc q) r v h lt e =
      let same : 1024 * suc q + r ≡ length d + (1024 * q + r) = omega arith in
      rw (same, set-append_right d (flatten cs) (1024 * q + r) v)
        (ap (◌++◌ d) (flatten-set cs q r v h.1 lt e))

  -- The cell `i` of the chunks, through the quotient and the remainder.
  module _ (cs : List (List A)) (full : All IsFull cs) (i : ℕ) (inside : i < 1024 * length cs) where
    pub chunk_at : (c : List A) × (get_elem? cs (i / slab_size) ≡ some c)
    chunk_at = get_elem?_of_lt cs (i / slab_size) (omega arith)

    pub cell_at : get_elem? chunk_at.0 (i % slab_size) ≡ get_elem? (flatten cs) i
    cell_at =
        let same : 1024 * (i / 1024) + i % 1024 ≡ i = omega arith in
        sym (get_elem?-flatten cs (i / 1024) (i % 1024) full (omega arith) chunk_at.1)
        ∙ ap (get_elem? (flatten cs)) same

    -- `put` writes the cell and keeps the shape.
    pub put_lem :
        (v : A)
        → Returns
            (put cs i v)
            (λ ds. (flatten ds ≡ set (flatten cs) i v) × All IsFull ds × (length ds ≡ length cs))
    unfolding put
    put_lem v =
        let (c, e) = chunk_at in
        let q = i / slab_size in
        let r = i % slab_size in
        let wide : length c ≡ 1024 = All-get_elem? IsFull cs q full e in
        let same : 1024 * q + r ≡ i = omega arith in
        (
          set cs q (set c r v),
          rw (
            index_lem cs q e,
            ◌>>=◌,
            store_lem c r v (omega arith),
            store_lem cs q (set c r v) (omega arith),
          ),
          (
            flatten-set cs q r v full (omega arith) e ∙ ap (λ k. set (flatten cs) k v) same,
            All-set IsFull cs q (set c r v) full (length-set c r v ∙ wide),
            length-set cs q (set c r v),
          ),
        )

module _ {A : Type 0} ⦃z : Zero A⦄ where
  -- Full chunks that hold the rows `xs` and then zeros only.
  pub record Padded (xs : List A) (cs : List (List A)) : Type 0 where
    pub full : All IsFull cs
    pub fits : length xs ≤ 1024 * length cs
    pub shape : flatten cs ≡ xs ++ replicate (1024 * length cs - length xs) z.value

  -- The table `s` holds the rows `xs` in as few chunks as they take.
  pub record Models (s : Slabs A) (xs : List A) : Type 0 where
    pub count : length s.chunks ≡ (s.n + 1023) / 1024
    pub size : s.n ≡ length xs
    pub padded : Padded xs s.chunks

  -- One more chunk of zeros holds the same rows.
  pub Padded-fresh :
      {xs : List A} {cs : List (List A)} → Padded xs cs → Padded xs (cs ++ fresh ∷ [])
  unfolding fresh flatten
  Padded-fresh {xs} {cs} p =
      let k = 1024 * length cs - length xs in
      let longer : length (cs ++ fresh ∷ []) ≡ length cs + 1 =
        omega (arith, length-append cs (fresh ∷ [])) in
      let room : k + 1024 ≡ 1024 * length (cs ++ fresh ∷ []) - length xs = omega (arith, p.fits) in
      record {
        full = All-append IsFull cs (fresh ∷ []) p.full (length-replicate 1024 z.value, tt);
        fits = omega (arith, p.fits);
        shape =
            flatten-append cs (fresh ∷ [])
            ∙ ap (λ r. r ++ (fresh ++ [])) p.shape
            ∙ rw (append-nil (fresh {A = A}), append_assoc xs (replicate k z.value) fresh)
                (ap (◌++◌ xs)
                  (replicate-append k 1024 z.value ∙ ap (λ j. replicate j z.value) room));
      }
