-- ===== src/Payload/Words.antt =====
-- `internWords` and `packWords`: a chain of spans for each fingerprint, compared word by word.
use osvpy.Prelude.{ℕ, zero, suc, ◌+◌, List, [], ◌∷◌, Option, some, none, length, ◌==◌, pos}
use osvpy.Prelude.{Bool, true, false, if◌then◌else◌}
use osvpy.Maps.{insert, nat_comparable}
use osvpy.Slabs.{Slabs, uint32_zero}
use osvpy.Slabs
use osvpy.Report.Stored.{Span, ListEntry, nil_span_start, entry_zero}
use osvpy.Report.{Slice}
use osvpy.Run.{Run, ok, hang, ◌>>=◌, checked}
use osvpy.Payload.{M, fingerprint, offset_basis, chain_head}

-- The inner loop: are the words from `start` on those of the list?
unfoldable pub same_words : Slabs ℕ → ℕ → List ℕ → Run Bool
same_words words start [] = ok true
same_words words start (w ∷ ws) = do
  x ← Slabs.at words (pos start)
  let rest = same_words words (start + 1) ws
  if x == w then rest else ok false

-- `equal` at one entry of the chain.
unfoldable pub entry_equal : Slabs ℕ → Span → List ℕ → Run Bool
unfolding same_words
entry_equal words s ws = if s.count == length ws then same_words words s.start ws else ok false

-- The outer loop from entry `id` on. Every `next` is smaller, so `id` rounds are enough.
unfoldable pub find_words : ℕ → Slabs ListEntry → Slabs ℕ → ℕ → List ℕ → Run (Option Span)
unfolding entry_equal
find_words fuel entries words zero ws = ok none
find_words zero entries words (suc i) ws = hang
find_words (suc fuel) entries words (suc i) ws = do
  e ← Slabs.at entries (pos i)
  equal ← entry_equal words e.span ws
  let rest = find_words fuel entries words e.next ws
  if equal then ok (some e.span) else rest

unfoldable pub append_words : Slabs ℕ → List ℕ → Run (Slabs ℕ)
append_words words [] = ok words
append_words words (w ∷ ws) = do (_, words') ← Slabs.append words w; append_words words' ws

-- The tail of `internWords`, for a list that no entry of its chain holds.
unfoldable pub add_words : List ℕ → ℕ → M Span
unfolding append_words chain_head
add_words ws hash p = do
  start ← checked (pos p.words.n)
  count ← checked (pos (length ws))
  let s : Span = record { start = start; count = count }
  checked (pos (p.words.n + length ws)) >>= λ _. do
    words ← append_words p.words ws
    (id, entries) ←
        Slabs.append p.payload.entries (record { span = s; next = chain_head p.payload.lists hash })
    head ← checked (pos (id + 1))
    let payload = record p.payload { entries = entries; lists = insert hash head p.payload.lists }
    ok (s, record p { words = words; payload = payload })

unfoldable pub intern_words : List ℕ → ℕ → M Span
unfolding find_words add_words chain_head
intern_words ws hash p =
    let id = chain_head p.payload.lists hash in
    find_words id p.payload.entries p.words id ws >>= λ found. elim found [
      | some s ↦ ok (s, p)
      | none ↦ add_words ws hash p
    ]

unfoldable pub pack_words : Slice ℕ → M Span
unfolding intern_words fingerprint
pack_words none p = ok (record { start = nil_span_start; count = 0 }, p)
pack_words (some []) p = ok (record { start = 0; count = 0 }, p)
pack_words (some (w ∷ ws)) p = intern_words (w ∷ ws) (fingerprint offset_basis (w ∷ ws)) p
