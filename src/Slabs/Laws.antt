-- ===== src/Slabs/Laws.antt =====
-- `At`, a write through its pointer, and `Append` (go/slabs.go) on the list of rows.
use osvpy.Prelude.{ℕ, suc, ◌+◌, ◌-◌, ◌*◌, ◌/◌, ◌%◌, ◌<◌, ◌≤◌, ◌≡◌, refl, ap, sym, ◌∙◌, ap₂}
use osvpy.Prelude.{List, [], ◌∷◌, ◌++◌, flatten, length, set, get_elem?, some, none, replicate}
use osvpy.Prelude.{arith, append_assoc, length-append, length-set}
use osvpy.Prelude.{get_elem?-append_left, set-append_left, set-append_right}
use osvpy.Prelude.{get_elem?_of_lt}
use osvpy.Prelude.{get_elem?-length, ltb, pos, lt→ltb, ◌==◌}
use osvpy.Prelude.{true, if◌then◌else◌, Bool-cases, inl, inr}
use osvpy.Slabs.{Slabs, Zero, slab_size, empty, fresh, at, write, append}
use osvpy.Slabs.Rows.{chunk_at, cell_at, put_lem, Models}
use osvpy.Slabs.Rows.{Padded, Padded-fresh}
use osvpy.Run.{ok, panic, ◌>>=◌, Returns, index_lem}
use osvpy.Run.{checked_lem, checked_over, max_uint32, report_overflow, invalid_index}

module _ {A : Type 0} ⦃z : Zero A⦄ where
  pub empty-Models : Models {A = A} empty []
  unfolding flatten replicate
  empty-Models = record {
    count = refl;
    size = refl;
    padded = record { full = tt; fits = omega arith; shape = refl };
  }

  module _ (s : Slabs A) (xs : List A) (m : Models s xs) where
    fits : s.n ≤ 1024 * length s.chunks
    fits = omega (arith, m.size, m.padded.fits)

    -- For slabs that represent a list of rows, `at` with a natural number returns the element of
    -- the list at that position, and panics with `invalid index` when the list has none.
    pub at_lem :
        (i : ℕ)
        → at s (pos i) ≡ elim (get_elem? xs i) [ some a ↦ ok a | none ↦ panic invalid_index ]
    unfolding at
    at_lem i = elim (Bool-cases (ltb i s.n)) [
      | inl e ↦
          let inside : i < 1024 * length s.chunks = ground (arith, fits) in
          let (c, found) = chunk_at s.chunks m.padded.full i inside in
          let (a, e') = get_elem?_of_lt xs i (ground (arith, m.size)) in
          let cell =
            cell_at s.chunks m.padded.full i inside
            ∙ ap (λ r. get_elem? r i) m.padded.shape
            ∙ get_elem?-append_left xs _ i (ground (arith, m.size)) in
          rw (e, index_lem s.chunks (i / slab_size) found, ◌>>=◌, e')
            (index_lem c (i % slab_size) (cell ∙ e'))
      | inr e ↦ rw (e, get_elem?-length xs i (ground (arith, m.size)))
    ]

    pub at-some : (i : ℕ) {a : A} → get_elem? xs i ≡ some a → at s (pos i) ≡ ok a
    at-some i e = at_lem i ∙ rw e

    -- For slabs that represent a list of rows and a position inside it, `write` returns slabs that
    -- represent the list with the row at that position replaced.
    pub write-set :
        (i : ℕ) (v : A) → i < length xs → Returns (write s (pos i) v) λ s'. Models s' (set xs i v)
    unfolding write
    write-set i v h =
        let test : ltb i s.n ≡ true = lt→ltb i s.n (omega (arith, m.size)) in
        let (cs, run, (flat, full, same)) =
          put_lem s.chunks m.padded.full i (omega (arith, fits, m.size)) v in
        (
          record s { chunks = cs },
          rw (test, run),
          record {
            count = same ∙ m.count;
            size = m.size ∙ sym (length-set xs i v);
            padded = record {
              full = full;
              fits = omega (arith, length-set xs i v, m.padded.fits);
              shape =
                  flat
                  ∙ ap (λ r. set r i v) m.padded.shape
                  ∙ set-append_left xs _ i v h
                  ∙ ap₂ (λ k n. set xs i v ++ replicate (1024 * k - n) z.value) (sym same)
                      (sym (length-set xs i v));
            };
          },
        )

    -- The chunks that `append` writes to.
    abbrev roomy : List (List A)
    roomy = if s.n % slab_size == 0 then s.chunks ++ fresh ∷ [] else s.chunks

    make_room : Padded xs roomy × (length roomy ≡ (s.n + 1024) / 1024)
    make_room = elim (Bool-cases (s.n % slab_size == 0)) [
      | inl e ↦ rw e (
        Padded-fresh m.padded,
        ground (arith, m.count, length-append s.chunks (fresh {A = A} ∷ [])),
      )
      | inr e ↦ rw e (m.padded, ground (arith, m.count))
    ]

    -- For slabs that represent a list of rows, with fewer than 2^32 - 1 rows, `append` returns the
    -- old number of rows and slabs that represent the list with the row added at its end.
    pub append-snoc :
        (v : A)
        → s.n < max_uint32
        → (s' : Slabs A) × (append s v ≡ ok (s.n, s')) × Models s' (xs ++ v ∷ [])
    unfolding append replicate
    append-snoc v h =
        let (p, count) = make_room in
        let (ds, run, (flat, full, same)) = put_lem roomy p.full s.n (omega (arith, m.size)) v in
        let k = 1024 * length roomy - suc (length xs) in
        let room : 1024 * length roomy - length xs ≡ suc k = omega (arith, m.size) in
        let longer = length-append xs (v ∷ []) in
        let here : s.n ≡ length xs + 0 = omega (arith, m.size) in
        (
          record { chunks = ds; n = s.n + 1 },
          rw (checked_lem (s.n + 1) (omega arith), run),
          record {
            count = omega (arith, same, count);
            size = omega (arith, m.size, longer);
            padded = record {
              full = full;
              fits = omega (arith, m.size, longer, same, count);
              shape =
                  flat
                  ∙ ap₂ (λ r i. set r i v) (p.shape ∙ ap (λ j. xs ++ replicate j z.value) room) here
                  ∙ set-append_right xs (replicate (suc k) z.value) 0 v
                  ∙ sym (append_assoc xs (v ∷ []) (replicate k z.value))
                  ∙ ap (λ j. (xs ++ v ∷ []) ++ replicate j z.value) (omega (arith, longer, same));
            };
          },
        )

    -- A full table panics, whatever the row.
    pub append_full : (v : A) → max_uint32 ≤ s.n → append s v ≡ panic report_overflow
    unfolding append
    append_full v h = rw (checked_over (s.n + 1) (omega arith))
