-- ===== src/Abi.antt =====
-- go/abi.go: reading one property of a finished report by record kind, row, field and position.
--
-- An `int64` index is an integer; a negative one asks for a length. Differences and sums of
-- `uint32` values wrap.
pub mod Kinds
pub mod Value
pub mod Sequences
use osvpy.Prelude.{
  ℕ, zero, suc, ◌+◌, ◌-◌, ◌*◌, ◌/◌, ◌%◌, ◌^◌, List, [], ◌∷◌, Option, some, none, Bool,
}
use osvpy.Prelude.{true, false, ◌||◌, ltb, leb, ◌==◌, if◌then◌else◌, ℤ, pos, negsuc}
use osvpy.Text.{Text}
use osvpy.Slabs
use osvpy.Run.{Run, ok, panic, ◌>>=◌, checked, index, invalid_index, invalid_property}
use osvpy.Report.Stored.{Span}
use osvpy.Store.{ReportStore}
use osvpy.Payload.{string_at}

pub record NativeValue : Type 0 where
  pub tag : ℕ
  pub kind : ℕ
  pub row : ℕ
  pub sub : ℕ
  pub number : ℕ
  pub text : Text

-- `nativeValue{}`
abbrev pub absent : NativeValue
absent = record { tag = 0; kind = 0; row = 0; sub = 0; number = 0; text = [] }

abbrev pub text_value : Text → NativeValue
text_value s = record absent { tag = 1; text = s }

abbrev pub bool_value : Bool → NativeValue
bool_value true = record absent { tag = 2; number = 1 }
bool_value false = record absent { tag = 2 }

abbrev pub ref_value : ℕ → ℕ → ℕ → NativeValue
ref_value kind row sub = record absent { tag = 4; kind = kind; row = row; sub = sub }

unfoldable pub seq_value : ℕ → Run NativeValue
seq_value n = do number ← checked (pos n); ok (record absent { tag = 5; number = number })

unfoldable pub optional_bool_value : ℕ → NativeValue
optional_bool_value tag = if tag == 0 then absent else bool_value (tag == 2)

-- The uint32 difference and sum.
abbrev pub sub32 : ℕ → ℕ → ℕ
sub32 a b = (a + 2 ^ 32 - b) % 2 ^ 32

abbrev pub add32 : ℕ → ℕ → ℕ
add32 a b = (a + b) % 2 ^ 32

-- The pattern of a sequence property of `n` elements: a negative index asks for the length, an
-- index past the end panics, and `element` reads the rest.
unfoldable pub sequence : ℕ → (ℕ → Run NativeValue) → ℤ → Run NativeValue
unfolding seq_value
sequence n element (negsuc i) = seq_value n
sequence n element (pos i) = if leb n i then panic invalid_index else element i

-- A table of the batch as a sequence of references.
unfoldable pub rows_value : ℕ → ℕ → ℤ → Run NativeValue
unfolding sequence
rows_value n kind = sequence n λ i. ok (ref_value kind (i % 2 ^ 32) 0)

unfoldable pub record_list_value : Span → ℕ → ℕ → ℕ → ℤ → Run NativeValue
unfolding sequence
record_list_value s width kind row =
    sequence (s.count / width) λ i. ok (ref_value kind row (i % 2 ^ 32))

module _ (r : ReportStore) where
  unfoldable pub text_at : ℕ → Run NativeValue
  text_at id = do s ← string_at r.strings id; ok (text_value s)

  unfoldable pub optional_string_value : ℕ → Run NativeValue
  unfolding text_at
  optional_string_value zero = ok absent
  optional_string_value (suc i) = text_at (suc i)

  unfoldable pub string_list_value : Span → ℤ → Run NativeValue
  unfolding sequence text_at
  string_list_value s =
      sequence s.count λ i. (do w ← Slabs.at r.words (pos (s.start + i)); text_at w)

  unfoldable pub index_value : ℕ → ℕ → ℕ → ℤ → Run NativeValue
  unfolding sequence
  index_value id row kind i = do
    idx ← index r.indexes id
    start ← Slabs.at idx.offsets (pos row)
    stop ← Slabs.at idx.offsets (pos (row + 1))
    let element = λ (j : ℕ).
        (let member = add32 start (j % 2 ^ 32) in
          if idx.range
          then ok (ref_value kind member 0)
          else (do m ← Slabs.at idx.members (pos member); ok (ref_value kind m 0)))
    sequence (sub32 stop start) element i

  -- A text of a packed record of `width` texts, by its position `sub` and its field.
  unfoldable pub nested_text : Span → ℕ → ℕ → ℕ → Run NativeValue
  unfolding text_at
  nested_text s width sub field =
      if leb (s.count / width) sub || ltb field 1 || ltb width field
      then panic invalid_property
      else (do w ← Slabs.at r.words (pos (s.start + sub * width + field - 1)); text_at w)
