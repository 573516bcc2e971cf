-- ===== src/Slabs.antt =====
-- go/slabs.go: append-only tables in chunks of `slabSize` rows.
--
-- A chunk is a list of 1024 rows and `n` counts the rows in use. A pointer that `At` returns is
-- read by `at` and written by `write`. Go's zero value of a row type is an instance.
pub mod Rows
pub mod Laws
pub mod Resize
use osvpy.Prelude.{ℕ, zero, suc, ◌+◌, ◌-◌, ◌/◌, ◌%◌, List, [], ◌∷◌, ◌++◌, length, set, take, drop}
use osvpy.Prelude.{replicate, ltb, ◌==◌, if◌then◌else◌, ◌&&◌, ℤ, pos, negsuc}
use osvpy.Run.{Run, ok, panic, hang, ◌>>=◌, ◌>>◌, index, store, checked}
use osvpy.Run.{invalid_index, invalid_length}

-- Go's zero value of a type.
pub record Zero (A : Type 0) : Type 0 where
  pub value : A

instance abbrev pub uint32_zero : Zero ℕ
uint32_zero = record { value = 0 }

abbrev pub slab_size : ℕ
slab_size = 1024

pub record Slabs (A : Type 0) : Type 0 where
  pub chunks : List (List A)
  pub n : ℕ

-- The zero value of `slabs[T]`.
abbrev pub empty : {A : Type 0} → Slabs A
empty = record { chunks = []; n = 0 }

module _ {A : Type 0} where
  -- `At`, and the row that its result points at.
  unfoldable pub at : Slabs A → ℤ → Run A
  at s (negsuc i) = panic invalid_index
  at s (pos i) =
      if ltb i s.n
      then (do c ← index s.chunks (i / slab_size); index c (i % slab_size))
      else panic invalid_index

  -- `chunks[i/slabSize][i%slabSize] = v`
  unfoldable pub put : List (List A) → ℕ → A → Run (List (List A))
  put cs i v = do
    c ← index cs (i / slab_size)
    c' ← store c (i % slab_size) v
    store cs (i / slab_size) c'

  -- `*s.At(i) = v`
  unfoldable pub write : Slabs A → ℤ → A → Run (Slabs A)
  unfolding put
  write s (negsuc i) v = panic invalid_index
  write s (pos i) v =
      if ltb i s.n
      then (do cs ← put s.chunks i v; ok (record s { chunks = cs }))
      else panic invalid_index

  -- `new([slabSize]T)`
  unfoldable pub fresh : ⦃z : Zero A⦄ → List A
  fresh ⦃z⦄ = replicate slab_size z.value

  unfoldable pub append : ⦃z : Zero A⦄ → Slabs A → A → Run (ℕ × Slabs A)
  unfolding put
  append s v = do
    checked (pos (s.n + 1))
    let i = s.n
    let cs = if i % slab_size == 0 then s.chunks ++ fresh ∷ [] else s.chunks
    cs' ← put cs i v
    ok (i, record { chunks = cs'; n = s.n + 1 })

  -- `clear(c[i:])`
  unfoldable pub clear_from : ⦃z : Zero A⦄ → List A → ℕ → List A
  clear_from ⦃z⦄ c i = take i c ++ replicate (length c - i) z.value

  -- The chunks that `clear` empties before the reslice are not reachable afterwards.
  unfoldable pub truncate : ⦃z : Zero A⦄ → Slabs A → ℤ → Run (Slabs A)
  truncate s (negsuc n) = panic invalid_length
  truncate s (pos n) =
      let count = (n + slab_size - 1) / slab_size in
      let kept = take count s.chunks in
      if ltb s.n n
      then panic invalid_length
      else if ltb 0 count && ltb 0 (n % slab_size)
      then (do
        last ← index kept (count - 1)
        cs ← store kept (count - 1) (clear_from last (n % slab_size))
        ok (record { chunks = cs; n = n }))
      else ok (record { chunks = kept; n = n })

  -- The loop of `Resize`, on the number of chunks that it has still to allocate.
  unfoldable pub grow : ⦃z : Zero A⦄ → ℕ → List (List A) → List (List A)
  grow zero cs = cs
  grow (suc k) cs = grow k (cs ++ fresh ∷ [])

  unfoldable pub resize : ⦃z : Zero A⦄ → Slabs A → ℤ → Run (Slabs A)
  unfolding grow truncate
  resize s (negsuc n) = checked (negsuc n) >>= λ _. truncate s (negsuc n)
  resize s (pos n) = do
    checked (pos n)
    if ltb n s.n
        then truncate s (pos n)
        else ok (record {
          chunks = grow ((n + slab_size - 1) / slab_size - length s.chunks) s.chunks;
          n = n;
        })
