-- ===== src/Payload/InternWords.antt =====
-- `internWords` (go/payload.go) on the ledger, with the fingerprint as an argument.
use osvpy.Prelude.{ℕ, suc, ◌+◌, ◌≤◌, ◌≡◌, refl, List, [], ◌∷◌, ◌++◌, length}
use osvpy.Prelude.{some, none, arith, Bool-cases, Option-cases, inl, inr}
use osvpy.Prelude.{
  if◌then◌else◌, get_elem?-append_some, get_elem?-snoc, length-append, append_assoc, append-nil,
  ◌==◌, ==_iff, subst,
}
use osvpy.Maps.{Map, lookup, insert, lookup-insert, nat_comparable, list_comparable, list_eq_iff}
use osvpy.Slabs.{Slabs, uint32_zero}
use osvpy.Slabs.Rows.{Models}
use osvpy.Slabs.Laws.{append-snoc}
use osvpy.Report.Stored.{Span, ListEntry, entry_zero}
use osvpy.Run.{ok, ◌>>=◌, Returns, checked_lem, max_uint32}
use osvpy.Payload.{PayloadState, chain_head}
use osvpy.Payload.Words.{append_words, add_words, intern_words}
use osvpy.Payload.Ledger.{Ledger, Represents, Extends, Room, Promise, Does, Chain, link}
use osvpy.Payload.Chain.{Chain-mono, Chain-le, find_words_lem, Holds-append}
use osvpy.Payload.Rules.{Extends-refl, Room-le}

append_words_lem :
    (words : Slabs ℕ) (xs ws : List ℕ)
    → Models words xs
    → length xs + length ws ≤ max_uint32
    → Returns (append_words words ws) λ words'. Models words' (xs ++ ws)
unfolding append_words
append_words_lem words xs [] m h = (words, refl, rw append-nil m)
append_words_lem words xs (w ∷ ws) m h =
    let (next, run, m') = append-snoc words xs m w (omega (arith, m.size)) in
    let (done, runs, m'') =
      append_words_lem next (xs ++ w ∷ []) ws m' (omega (arith, length-append xs (w ∷ []))) in
    (done, rw (run, ◌>>=◌) runs, subst (Models done) (append_assoc xs (w ∷ []) ws) m'')

chain_head-insert :
    (lists : Map ℕ ℕ) (h j id : ℕ)
    → chain_head (insert h id lists) j ≡ (if h == j then id else chain_head lists j)
unfolding chain_head
chain_head-insert lists h j id = ground (arith, lookup-insert h j id lists)

module _ (ws : List ℕ) (h : ℕ) (l : Ledger) (start : ℕ) where
  abbrev new_span : Span
  new_span = record { start = start; count = length ws }

  -- The ledger with one list more under the fingerprint.
  abbrev with_words : ListEntry → Ledger
  with_words e = record {
    strs = l.strs;
    words = l.words ++ ws;
    entries = l.entries ++ e ∷ [];
    chain = λ j. if h == j then (ws, new_span) ∷ l.chain j else l.chain j;
  }

  with_words-Extends : (e : ListEntry) → lookup ws (l.chain h) ≡ none → Extends l (with_words e)
  unfolding lookup
  with_words-Extends e new = record {
    refs = λ t id r. r;
    rows = λ i t r. r;
    cells = λ i w r. get_elem?-append_some l.words ws i r;
    spans = λ j vs s r. ground (arith, list_eq_iff nat_comparable ws vs, ==_iff h j);
  }

  module _ (lists : Map ℕ ℕ) where
    abbrev new_entry : ListEntry
    new_entry = record { span = new_span; next = chain_head lists h }

    with_words-Chain :
        (j : ℕ)
        → start ≡ length l.words
        → ((k : ℕ) → Chain l.entries l.words (chain_head lists k) (l.chain k))
        → Chain
            (l.entries ++ new_entry ∷ [])
            (l.words ++ ws)
            (chain_head (insert h (suc (length l.entries)) lists) j)
            ((with_words new_entry).chain j)
    with_words-Chain j at chains =
        let old = λ (k : ℕ).
          Chain-mono l.entries (l.entries ++ new_entry ∷ []) l.words (l.words ++ ws)
            (λ i x r. get_elem?-append_some l.entries (new_entry ∷ []) i r)
            (λ i x r. get_elem?-append_some l.words ws i r) (chains k) in
        elim (Bool-cases (h == j)) [
          | inr other ↦ rw (chain_head-insert, other) (old j)
          | inl same ↦
              let one : h ≡ j = (==_iff h j).0 same in
              rw (chain_head-insert, same)
                (link {e = new_entry} {l = ws} (get_elem?-snoc l.entries new_entry)
                  (Chain-le l.entries l.words (chains h))
                  (refl, Holds-append (l.words ++ ws) l.words ws start at refl)
                  (subst
                    (λ k.
                      Chain (l.entries ++ new_entry ∷ []) (l.words ++ ws) (chain_head lists h)
                        (l.chain k))
                    one (old h)))
        ]

module _ (ws : List ℕ) (h : ℕ) where
  abbrev Kept : Ledger → Span → Type 0
  Kept l s = lookup ws (l.chain h) ≡ some s

  module _ (p : PayloadState) (l : Ledger) (r : ℕ) (rep : Represents p l) where
    add_words_lem :
        Room l (suc (length ws) + r)
        → lookup ws (l.chain h) ≡ none
        → (s : Span) × (p' : PayloadState) × (l' : Ledger) × (add_words ws h p ≡ ok (s, p'))
          × Represents p' l'
          × Extends l l'
          × Room l' r
          × Kept l' s
    unfolding add_words lookup
    add_words_lem room new =
        let n = p.words.n in
        let lists = p.payload.lists in
        let e = new_entry ws h l n lists in
        let size = rep.words.size in
        let (words, run, m) =
          append_words_lem p.words l.words ws rep.words (omega (arith, room.words)) in
        let (entries, runs, m') =
          append-snoc p.payload.entries l.entries rep.entries e
            (omega (arith, rep.entries.size, room.entries)) in
        let id = p.payload.entries.n in
        let next : id + 1 ≡ suc (length l.entries) = omega (arith, rep.entries.size) in
        (
          new_span ws h l n,
          record p {
            words = words;
            payload = record p.payload { entries = entries; lists = insert h (id + 1) lists };
          },
          with_words ws h l n e,
          rw (
            checked_lem n (omega (arith, size, room.words)),
            checked_lem (length ws) (omega (arith, room.words)),
            checked_lem (n + length ws) (omega (arith, size, room.words)),
            run,
            runs,
            ◌>>=◌,
            checked_lem (id + 1) (omega (arith, next, room.entries)),
          ),
          record {
            strings = rep.strings;
            words = m;
            entries = m';
            ids = rep.ids;
            distinct = rep.distinct;
            chains = λ j. rw next (with_words-Chain ws h l n lists j size rep.chains);
          },
          with_words-Extends ws h l n e new,
          record {
            strings = omega (arith, room.strings);
            words = omega (arith, room.words, length-append l.words ws);
            entries = omega (arith, room.entries, length-append l.entries (e ∷ []));
          },
          rw ((==_iff h h).1 refl, lookup, (list_eq_iff nat_comparable ws ws).1 refl),
        )

  intern_words_lem : Promise (intern_words ws h) (suc (length ws)) Kept
  unfolding intern_words
  intern_words_lem p l r rep room =
      let search =
        find_words_lem p.words l.words rep.words p.payload.entries l.entries rep.entries
          (chain_head p.payload.lists h) ws (rep.chains h) (omega arith) in
      elim (Option-cases (lookup ws (l.chain h))) [
        | inr (s, e) ↦ (
          s,
          p,
          l,
          rw (search, ◌>>=◌, e),
          rep,
          Extends-refl l,
          Room-le l r (suc (length ws) + r) (omega arith) room,
          e,
        )
        | inl e ↦
            let (s, p', l', run, rep', ext, room', q) = add_words_lem p l r rep room e in
            (s, p', l', rw (search, ◌>>=◌, e) run, rep', ext, room', q)
      ]

  -- With room the list has a span afterwards, old or new, whatever the fingerprint is.
  pub intern_words_Does : Does (intern_words ws h) (suc (length ws)) Kept
  intern_words_Does = record { runs = intern_words_lem }
