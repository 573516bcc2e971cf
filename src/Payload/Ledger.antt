-- ===== src/Payload/Ledger.antt =====
-- What the payload tables stand for: the distinct texts, the words, and for each fingerprint the
-- lists that have been interned under it with their spans.
use osvpy.Prelude.{ℕ, zero, suc, ◌+◌, ◌≤◌, ◌≡◌, List, [], ◌∷◌, length, Option, some, get_elem?}
use mathlib.Core.Option
use osvpy.Text.{Text}
use osvpy.Maps.{Map, lookup, nat_comparable, list_comparable}
use osvpy.Slabs.{uint32_zero}
use osvpy.Slabs.Rows.{Models}
use osvpy.Table.Laws.{index_of, IsDistinct}
use osvpy.Report.Stored.{Span, ListEntry, entry_zero}
use osvpy.Run.{ok, max_uint32}
use osvpy.Payload.{PayloadState, M, string_zero, chain_head}

pub record Ledger : Type 0 where
  pub strs : List Text
  pub words : List ℕ
  pub entries : List ListEntry
  pub chain : ℕ → Map (List ℕ) Span

-- The words from `i` on begin with the list.
abbrev pub Holds : List ℕ → ℕ → List ℕ → Type 0
Holds ws i [] = Unit
Holds ws i (x ∷ l) = (get_elem? ws i ≡ some x) × Holds ws (suc i) l

abbrev pub Decodes : List ℕ → Span → List ℕ → Type 0
Decodes ws s l = (s.count ≡ length l) × Holds ws s.start l

-- The entries that are reached from `id`, each with its list. An entry links to an older one.
pub data Chain (es : List ListEntry) (ws : List ℕ) : ℕ → Map (List ℕ) Span → Type 0 where
  end : Chain es ws zero []
  link :
      {i : ℕ} {e : ListEntry} {l : List ℕ} {m : Map (List ℕ) Span}
      → get_elem? es i ≡ some e
      → e.next ≤ i
      → Decodes ws e.span l
      → Chain es ws e.next m
      → Chain es ws (suc i) ((l, e.span) ∷ m)

-- The number of a text, which is its row plus one.
abbrev pub string_ref : List Text → Text → Option ℕ
string_ref strs s = Option.map suc (index_of s strs)

pub record Represents (p : PayloadState) (l : Ledger) : Type 0 where
  pub strings : Models p.strings l.strs
  pub words : Models p.words l.words
  pub entries : Models p.payload.entries l.entries
  pub ids : (s : Text) → lookup s p.payload.strings ≡ string_ref l.strs s
  pub distinct : IsDistinct l.strs
  pub chains : (h : ℕ) → Chain l.entries l.words (chain_head p.payload.lists h) (l.chain h)

-- Nothing that was known is lost or renumbered.
pub record Extends (l l' : Ledger) : Type 0 where
  pub refs : (s : Text) (id : ℕ) → string_ref l.strs s ≡ some id → string_ref l'.strs s ≡ some id
  pub rows : (i : ℕ) (s : Text) → get_elem? l.strs i ≡ some s → get_elem? l'.strs i ≡ some s
  pub cells : (i w : ℕ) → get_elem? l.words i ≡ some w → get_elem? l'.words i ≡ some w
  pub spans :
      (h : ℕ) (ws : List ℕ) (s : Span)
      → lookup ws (l.chain h) ≡ some s
      → lookup ws (l'.chain h) ≡ some s

-- Each of the three tables has room for `k` more rows.
pub record Room (l : Ledger) (k : ℕ) : Type 0 where
  pub strings : length l.strs + k ≤ max_uint32
  pub words : length l.words + k ≤ max_uint32
  pub entries : length l.entries + k ≤ max_uint32

-- With room for `k` rows the operation returns, uses up no more, loses nothing that was known,
-- and reaches a ledger at which its result satisfies `Q`.
abbrev pub Promise : {A : Type 0} → M A → ℕ → (Ledger → A → Type 0) → Type 0
Promise {A} m k Q =
    (p : PayloadState) (l : Ledger) (r : ℕ)
    → Represents p l
    → Room l (k + r)
    → (a : A) × (p' : PayloadState) × (l' : Ledger) × (m p ≡ ok (a, p'))
      × Represents p' l'
      × Extends l l'
      × Room l' r
      × Q l' a

pub record Does {A : Type 0} (m : M A) (k : ℕ) (Q : Ledger → A → Type 0) : Type 0 where
  pub runs : Promise m k Q

-- What stays true while the ledger grows.
abbrev pub IsStable : (Ledger → Type 0) → Type 0
IsStable P = (l l' : Ledger) → Extends l l' → P l → P l'
