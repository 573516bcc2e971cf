-- ===== src/Payload/Intern.antt =====
-- `stringID` (go/payload.go) on the ledger.
use osvpy.Prelude.{suc, ◌+◌, ◌<◌, ◌≡◌, refl, ◌∙◌, List, [], ◌∷◌, ◌++◌, length}
use osvpy.Prelude.{some, none, arith, Option-cases, inl, inr}
use osvpy.Prelude.{if◌then◌else◌, get_elem?-append_some, length-append}
use osvpy.Text.{Text}
use osvpy.Maps.{insert, lookup-insert, nat_comparable, list_comparable, list_eq, list_eq_iff}
use osvpy.Slabs.{uint32_zero}
use osvpy.Slabs.Laws.{append-snoc}
use osvpy.Table.Laws.{index_from-snoc, IsDistinct-snoc}
use osvpy.Report.Stored.{entry_zero}
use osvpy.Run.{◌>>=◌, checked_lem, max_uint32}
use osvpy.Payload.{string_zero, string_id}
use osvpy.Payload.Ledger.{Ledger, Extends, Promise, Does, string_ref}
use osvpy.Payload.Rules.{Extends-refl, Room-le}

string_ref-snoc :
    (strs : List Text) (s t : Text)
    → string_ref (strs ++ s ∷ []) t ≡ elim (string_ref strs t) [
      | some id ↦ some id
      | none ↦ if list_eq nat_comparable.eq s t then some (suc (length strs)) else none
    ]
string_ref-snoc strs s t = ground (arith, index_from-snoc 0 s t strs)

module _ (s : Text) where
  -- The ledger with one text more.
  abbrev with_string : Ledger → Ledger
  with_string l = record l { strs = l.strs ++ s ∷ [] }

  with_string-Extends : (l : Ledger) → string_ref l.strs s ≡ none → Extends l (with_string l)
  with_string-Extends l new = record {
    refs = λ t id h. string_ref-snoc l.strs s t ∙ rw h;
    rows = λ i t h. get_elem?-append_some l.strs (s ∷ []) i h;
    cells = λ i w h. h;
    spans = λ h ws sp e. e;
  }

  -- `stringID` gives the text's number, and makes one for a text that has none.
  string_id_lem : Promise (string_id s) 1 (λ l id. string_ref l.strs s ≡ some id)
  unfolding string_id
  string_id_lem p l r rep room = elim (Option-cases (string_ref l.strs s)) [
    | inr (id, e) ↦ (
      id,
      p,
      l,
      rw (rep.ids s ∙ e, string_id),
      rep,
      Extends-refl l,
      Room-le l r (1 + r) (omega arith) room,
      e,
    )
    | inl e ↦
        let n = p.strings.n in
        let small : n < max_uint32 = omega (arith, rep.strings.size, room.strings) in
        let (strings, run, m) = append-snoc p.strings l.strs rep.strings s small in
        let one : n + 1 ≡ suc (length l.strs) = omega (arith, rep.strings.size) in
        let longer = length-append l.strs (s ∷ []) in
        (
          n + 1,
          record p {
            strings = strings;
            payload = record p.payload { strings = insert s (n + 1) p.payload.strings };
          },
          with_string l,
          rw (rep.ids s ∙ e, string_id, run, ◌>>=◌, checked_lem (n + 1) (omega arith)),
          record {
            strings = m;
            words = rep.words;
            entries = rep.entries;
            ids = λ t.
                lookup-insert s t (n + 1) p.payload.strings
                ∙ rw (rep.ids t, one)
                    (ground (arith, string_ref-snoc l.strs s t, list_eq_iff nat_comparable s t));
            distinct = IsDistinct-snoc s l.strs (ground arith) rep.distinct;
            chains = rep.chains;
          },
          with_string-Extends l e,
          record {
            strings = omega (arith, room.strings, longer);
            words = omega (arith, room.words);
            entries = omega (arith, room.entries);
          },
          string_ref-snoc l.strs s s ∙ rw (e, (list_eq_iff nat_comparable s s).1 refl, one),
        )
  ]

  pub string_id_Does : Does (string_id s) 1 (λ l id. string_ref l.strs s ≡ some id)
  string_id_Does = record { runs = string_id_lem }
