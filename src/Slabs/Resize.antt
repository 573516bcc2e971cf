-- ===== src/Slabs/Resize.antt =====
-- `Truncate` and `Resize` (go/slabs.go) on the list of rows.
use osvpy.Prelude.{ℕ, zero, suc, ◌+◌, ◌-◌, ◌*◌, ◌/◌, ◌%◌, ◌<◌, ◌≤◌, ◌≡◌, refl, ap, sym, ◌∙◌, ap₂}
use osvpy.Prelude.{List, [], ◌∷◌, ◌++◌, flatten, length, set, get_elem?, some, take, replicate}
use osvpy.Prelude.{
  All, arith, append_assoc, append-nil, length-append, length-replicate, length-set,
}
use osvpy.Prelude.{
  take-nil, length-take, take-append_left, take-append_right, get_elem?-take, get_elem?_of_lt,
  get_elem?-some_lt,
}
use osvpy.Prelude.{All-set, All-take, All-get_elem?}
use osvpy.Prelude.{ltb, pos, take_all, subst, ◌^◌, replicate-append, lt→ltb, le→ltb, ◌&&◌, true}
use osvpy.Prelude.{Bool-cases, inl, inr}
use osvpy.Slabs.{Slabs, Zero, slab_size, fresh, clear_from, truncate, grow, resize}
use osvpy.Slabs.Rows.{IsFull, Models, Padded, Padded-fresh}
use osvpy.Run.{panic, ◌>>=◌, Returns, index_lem, store_lem, invalid_length}
use osvpy.Run.{checked_lem}

module _ {A : Type 0} where
  flatten-take :
      (k : ℕ) (cs : List (List A))
      → All IsFull cs
      → flatten (take k cs) ≡ take (1024 * k) (flatten cs)
  unfolding flatten take
  flatten-take zero cs h = refl
  flatten-take (suc k) [] h = sym (take-nil (1024 * suc k))
  flatten-take (suc k) (c ∷ cs) h =
      let same : 1024 * suc k ≡ length c + 1024 * k = omega (arith, h.0) in
      rw (same, take-append_right c (flatten cs) (1024 * k)) (ap (◌++◌ c) (flatten-take k cs h.1))

  -- The last chunk that is kept, with its tail replaced by `zs`.
  flatten-set-take :
      (cs : List (List A)) (q r : ℕ) (zs : List A) {c : List A}
      → All IsFull cs
      → r < 1024
      → get_elem? cs q ≡ some c
      → flatten (set (take (suc q) cs) q (take r c ++ zs)) ≡ take (1024 * q + r) (flatten cs) ++ zs
  unfolding flatten take
  flatten-set-take [] q r zs h lt e = absurd (ground arith)
  flatten-set-take (d ∷ cs) zero r zs {c} h lt e =
      let same : 1024 * 0 + r ≡ r = omega arith in
      let head : c ≡ d = cc in
      rw (same, head, take-append_left r d (flatten cs) (omega (arith, h.0)))
        (append-nil (take r d ++ zs))
  flatten-set-take (d ∷ cs) (suc q) r zs h lt e =
      let same : 1024 * suc q + r ≡ length d + (1024 * q + r) = omega (arith, h.0) in
      rw (same, take-append_right d (flatten cs) (1024 * q + r))
        (ap (◌++◌ d) (flatten-set-take cs q r zs h.1 lt e)
          ∙ sym (append_assoc d (take (1024 * q + r) (flatten cs)) zs))

module _ {A : Type 0} ⦃z : Zero A⦄ (s : Slabs A) (xs : List A) (m : Models s xs) where
  no_zeros : (l : List A) {k : ℕ} → k ≡ 0 → l ≡ l ++ replicate k z.value
  unfolding replicate
  no_zeros l e = rw (e, append-nil l)

  module _ (n : ℕ) (h : n ≤ s.n) where
    take-shape : take n (flatten s.chunks) ≡ take n xs
    take-shape = ap (take n) m.padded.shape ∙ take-append_left n xs _ (omega (arith, m.size))

    length-kept : length (take n xs) ≡ n
    length-kept = omega (arith, length-take n xs, m.size)

    abbrev needed : ℕ
    needed = (n + slab_size - 1) / slab_size

    short : needed ≤ length s.chunks
    short = omega (arith, m.count)

    kept : length (take needed s.chunks) ≡ needed
    kept = omega (arith, short, length-take needed s.chunks)

    -- The last chunk that stays is used up.
    whole-Models :
        1024 * needed ≡ n → Models (record { chunks = take needed s.chunks; n = n }) (take n xs)
    whole-Models exact = record {
      count = omega (arith, kept);
      size = sym length-kept;
      padded = record {
        full = All-take IsFull needed s.chunks m.padded.full;
        fits = omega (arith, kept, length-kept);
        shape =
            flatten-take needed s.chunks m.padded.full
            ∙ ap (λ j. take j (flatten s.chunks)) exact
            ∙ take-shape
            ∙ no_zeros (take n xs) (omega (arith, kept, length-kept));
      };
    }

    -- The last chunk that stays is `last`, the one behind `q` others, and `r` of its rows stay.
    module _ (q r : ℕ) (last : List A) (found : get_elem? s.chunks q ≡ some last) where
      abbrev cleared : List A
      cleared = take r last ++ replicate (length last - r) z.value

      wide : length last ≡ 1024
      wide = All-get_elem? IsFull s.chunks q m.padded.full found

      length-cleared : r < 1024 → length cleared ≡ 1024
      length-cleared h =
          length-append (take r last) _
          ∙ ap₂ ◌+◌ (length-take r last) (length-replicate (length last - r) z.value)
          ∙ omega (arith, wide)

      partial-Models :
          r < 1024
          → 0 < r
          → 1024 * q + r ≡ n
          → Models (record { chunks = set (take (suc q) s.chunks) q cleared; n = n }) (take n xs)
      partial-Models lt rough same =
          let inside = get_elem?-some_lt s.chunks q found in
          let len : length (set (take (suc q) s.chunks) q cleared) ≡ suc q =
            length-set (take (suc q) s.chunks) q cleared
            ∙ omega (arith, length-take (suc q) s.chunks) in
          record {
            count = omega (arith, len);
            size = sym length-kept;
            padded = record {
              full =
                  All-set IsFull (take (suc q) s.chunks) q cleared
                    (All-take IsFull (suc q) s.chunks m.padded.full) (length-cleared lt);
              fits = omega (arith, length-kept, len);
              shape =
                  flatten-set-take s.chunks q r _ m.padded.full lt found
                  ∙ ap (λ j. take j (flatten s.chunks) ++ replicate (length last - r) z.value) same
                  ∙ ap₂ (λ l j. l ++ replicate j z.value) take-shape
                      (omega (arith, length-kept, len, wide));
            };
          }

      truncate-partial :
          needed ≡ suc q
          → n % slab_size ≡ r
          → 0 < r
          → Returns (truncate s (pos n)) λ s'. Models s' (take n xs)
      unfolding truncate clear_from
      truncate-partial one_more rest rough =
          let less : needed - 1 ≡ q = omega arith in
          let here = get_elem?-take needed s.chunks q (omega arith) ∙ found in
          let test : ltb 0 needed && ltb 0 (n % slab_size) ≡ true = ground arith in
          (
            record { chunks = set (take (suc q) s.chunks) q cleared; n = n },
            rw (
              le→ltb s.n n h,
              test,
              less,
              index_lem (take needed s.chunks) q here,
              ◌>>=◌,
              rest,
              store_lem (take needed s.chunks) q cleared (omega (arith, kept)),
              one_more,
            ),
            partial-Models (omega arith) rough (omega arith),
          )

    -- For slabs that represent a list of rows and a length of at most their number, `truncate`
    -- returns slabs that represent the first rows up to that length, with only zeros behind them.
    pub truncate-take : Returns (truncate s (pos n)) λ s'. Models s' (take n xs)
    unfolding truncate
    truncate-take = elim (Bool-cases (ltb 0 needed && ltb 0 (n % slab_size))) [
      | inl e ↦
          let (last, found) = get_elem?_of_lt s.chunks (needed - 1) (ground (arith, short)) in
          truncate-partial (needed - 1) (n % slab_size) last found (ground arith) refl
            (ground arith)
      | inr e ↦ (
        record { chunks = take needed s.chunks; n = n },
        rw (le→ltb s.n n h, e),
        whole-Models (ground arith),
      )
    ]

  -- A length past the rows is no length of the table.
  pub truncate_over : (n : ℕ) → s.n < n → truncate s (pos n) ≡ panic invalid_length
  unfolding truncate
  truncate_over n h = rw (lt→ltb s.n n h)

  grow-Padded :
      (k : ℕ) (cs : List (List A))
      → Padded xs cs
      → Padded xs (grow k cs) × (length (grow k cs) ≡ length cs + k)
  unfolding grow
  grow-Padded zero cs p = (p, omega arith)
  grow-Padded (suc k) cs p =
      let (q, len) = grow-Padded k (cs ++ fresh ∷ []) (Padded-fresh p) in
      (q, omega (arith, len, length-append cs (fresh {A = A} ∷ [])))

  -- For slabs that represent a list of rows and a length below 2^32, `resize` returns slabs that
  -- represent the first rows up to that length, followed by as many zeros as are missing.
  pub resize-take :
      (n : ℕ)
      → n < 2 ^ 32
      → Returns (resize s (pos n)) λ s'. Models s' (take n xs ++ replicate (n - s.n) z.value)
  unfolding resize
  resize-take n h = elim (Bool-cases (ltb n s.n)) [
    | inl e ↦
        let (s', run, p) = truncate-take n (ground arith) in
        let none_new : n - s.n ≡ 0 = ground arith in
        (
          s',
          rw (checked_lem n h, ◌>>=◌, e) run,
          subst (Models s') (no_zeros (take n xs) none_new) p,
        )
    | inr e ↦
        let k = (n + slab_size - 1) / slab_size - length s.chunks in
        let (p, len) = grow-Padded k s.chunks m.padded in
        let more : s.n ≤ n = ground arith in
        let all : take n xs ≡ xs = take_all n xs (omega (arith, m.size)) in
        let zs = replicate (n - s.n) z.value in
        let long =
          length-append xs zs ∙ ap (◌+◌ (length xs)) (length-replicate (n - s.n) z.value) in
        (
          record { chunks = grow k s.chunks; n = n },
          rw (checked_lem n h, e),
          rw all (record {
            count = omega (arith, len, m.count);
            size = omega (arith, long, m.size);
            padded = record {
              full = p.full;
              fits = omega (arith, len, long, m.size, m.count);
              shape =
                  p.shape
                  ∙ ap (λ j. xs ++ replicate j z.value) (omega (arith, len, long, m.size, m.count))
                  ∙ ap (◌++◌ xs) (sym (replicate-append (n - s.n) _ z.value))
                  ∙ sym (append_assoc xs zs _);
            };
          }),
        )
  ]
