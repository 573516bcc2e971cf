-- ===== src/Payload.antt =====
-- go/payload.go: strings by number, lists of numbers by span, and the packing of the report's
-- records into rows of such numbers.
--
-- `PayloadState` is the part of a `batchBuilder` that the methods of payload.go touch: the two
-- slab tables of the report and the `payload` field. `scratch` is the buffer that they reuse.
pub mod Words
pub mod Pack
pub mod Unpack
pub mod Ledger
pub mod Chain
pub mod Rules
pub mod Intern
pub mod InternWords
pub mod Known
pub mod Lists
pub mod Records
pub mod Packs
pub mod Identity
pub mod Decode
pub mod RoundTrip
pub mod Collisions
use Prim.Native.Nat.{bit_xor}
use osvpy.Prelude.{ℕ, zero, suc, ◌+◌, ◌-◌, ◌*◌, ◌%◌, ◌^◌, List, [], ◌∷◌, Option, some, none, length}
use osvpy.Prelude.{◌==◌, pos, true, false, Bool, if◌then◌else◌}
use osvpy.Text.{Text}
use osvpy.Maps.{Map, lookup, insert, nat_comparable, list_comparable}
use osvpy.Slabs.{Slabs, Zero}
use osvpy.Slabs
use osvpy.Report.Stored.{Span, ListEntry, entry_zero}
use osvpy.Report.{Slice}
use osvpy.Run.{Run, ok, panic, hang, ◌>>=◌, checked, missing_string}
use osvpy.State.{St}

pub record PayloadBuilder : Type 0 where
  pub strings : Map Text ℕ
  pub lists : Map ℕ ℕ
  pub entries : Slabs ListEntry
  pub scratch : List ℕ

pub record PayloadState : Type 0 where
  pub strings : Slabs Text
  pub words : Slabs ℕ
  pub payload : PayloadBuilder

abbrev pub M : Type 0 → Type 0
M A = St PayloadState A

instance abbrev pub string_zero : Zero Text
string_zero = record { value = [] }

-- Sharing of the bytes, which `strings.Clone` ends, cannot be seen in a value.
unfoldable pub string_id : Text → M ℕ
string_id s p = elim (lookup s p.payload.strings) [
  | some id ↦ ok (id, p)
  | none ↦ do
    (i, strings) ← Slabs.append p.strings s
    id ← checked (pos (i + 1))
    let payload = record p.payload { strings = insert s id p.payload.strings }
    ok (id, record p { strings = strings; payload = payload })
]

unfoldable pub string_at : Slabs Text → ℕ → Run Text
string_at strings zero = panic missing_string
string_at strings (suc i) = Slabs.at strings (pos i)

unfoldable pub optional_string : Option Text → M ℕ
unfolding string_id
optional_string none p = ok (0, p)
optional_string (some s) p = string_id s p

unfoldable pub optional_bool : Option Bool → ℕ
optional_bool none = 0
optional_bool (some true) = 2
optional_bool (some false) = 1

-- The fingerprint of `packWords`: FNV-1a over words, in uint64.
unfoldable pub fingerprint : ℕ → List ℕ → ℕ
fingerprint h [] = h
fingerprint h (w ∷ ws) = fingerprint ((bit_xor h w * 1099511628211) % 2 ^ 64) ws

abbrev pub offset_basis : ℕ
offset_basis = 14695981039346656037

-- `p.lists[hash]`, which is 0 for a missing key.
unfoldable pub chain_head : Map ℕ ℕ → ℕ → ℕ
chain_head lists hash = elim (lookup hash lists) [ some id ↦ id | none ↦ 0 ]
