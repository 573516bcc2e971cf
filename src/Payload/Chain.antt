-- ===== src/Payload/Chain.antt =====
-- The search of `internWords` (go/payload.go) against the chain, seen as a map from lists to spans.
use osvpy.Prelude.{ℕ, zero, suc, ◌+◌, ◌≤◌, ◌≡◌, refl, ap, sym, ◌∙◌, List, [], ◌∷◌, ◌++◌, length}
use osvpy.Prelude.{some, get_elem?, get_elem?-some_lt, arith, false}
use osvpy.Prelude.{
  ◌==◌, Bool-cases, get_elem?-length_append, length-append, append_assoc, subst₂, ◌≢◌, inl, inr,
}
use osvpy.Maps.{Map, lookup, nat_comparable, list_comparable, list_eq, list_eq_iff}
use osvpy.Slabs.{Slabs, uint32_zero}
use osvpy.Slabs.Rows.{Models}
use osvpy.Slabs.Laws.{at-some}
use osvpy.Report.Stored.{Span, ListEntry, entry_zero}
use osvpy.Run.{ok, ◌>>=◌}
use osvpy.Payload.Words.{same_words, entry_equal, find_words}
use osvpy.Payload.Ledger.{Holds, Decodes, Chain, end, link}

-- Two lists of one length at one place are one.
pub Holds-unique :
    (ws : List ℕ) (i : ℕ) (a b : List ℕ) → length a ≡ length b → Holds ws i a → Holds ws i b → a ≡ b
Holds-unique ws i [] [] e h k = refl
Holds-unique ws i [] (y ∷ b) e h k = absurd (omega arith)
Holds-unique ws i (x ∷ a) [] e h k = absurd (omega arith)
Holds-unique ws i (x ∷ a) (y ∷ b) e h k =
    ground (arith, Holds-unique ws (suc i) a b (omega arith) h.1 k.1)

pub Decodes-unique :
    (ws : List ℕ) (s : Span) (a b : List ℕ) → Decodes ws s a → Decodes ws s b → a ≡ b
Decodes-unique ws s a b h k = Holds-unique ws s.start a b (sym h.0 ∙ k.0) h.1 k.1

pub Holds-mono :
    (ws vs : List ℕ) (i : ℕ) (a : List ℕ)
    → ((j w : ℕ) → get_elem? ws j ≡ some w → get_elem? vs j ≡ some w)
    → Holds ws i a
    → Holds vs i a
Holds-mono ws vs i [] keep h = tt
Holds-mono ws vs i (x ∷ a) keep h = (keep i x h.0, Holds-mono ws vs (suc i) a keep h.1)

-- The words of the list itself, stored from `length ws` on.
pub Holds-append : (ws pre l : List ℕ) (i : ℕ) → i ≡ length pre → ws ≡ pre ++ l → Holds ws i l
Holds-append ws pre [] i e w = tt
Holds-append ws pre (x ∷ l) i e w = (
  rw (w, e) (get_elem?-length_append pre x l),
  Holds-append ws (pre ++ x ∷ []) l (suc i) (omega (arith, length-append pre (x ∷ [])))
      (w ∙ sym (append_assoc pre (x ∷ []) l)),
)

pub Chain-mono :
    (es es' : List ListEntry) (ws vs : List ℕ) {id : ℕ} {m : Map (List ℕ) Span}
    → ((i : ℕ) (e : ListEntry) → get_elem? es i ≡ some e → get_elem? es' i ≡ some e)
    → ((j w : ℕ) → get_elem? ws j ≡ some w → get_elem? vs j ≡ some w)
    → Chain es ws id m
    → Chain es' vs id m
Chain-mono es es' ws vs he hw end = end
Chain-mono es es' ws vs he hw (link {i} {e} {l} at next dec c) =
    link (he i e at) next (dec.0, Holds-mono ws vs e.span.start l hw dec.1)
      (Chain-mono es es' ws vs he hw c)

-- What a chain knows it has stored.
pub Chain-Decodes :
    (es : List ListEntry) (ws : List ℕ) {id : ℕ} {m : Map (List ℕ) Span} (l : List ℕ) {s : Span}
    → Chain es ws id m
    → lookup l m ≡ some s
    → Decodes ws s l
unfolding lookup
Chain-Decodes es ws l end e = absurd (ground arith)
Chain-Decodes es ws l {s} (link {e = en} {l = l'} at next dec c) h =
    elim (Bool-cases (list_eq nat_comparable.eq l' l)) [
      | inl same ↦
          let one : en.span ≡ s = ground arith in
          let two = (list_eq_iff nat_comparable l' l).0 same in
          subst₂ (λ a b. Decodes ws a b) one two dec
      | inr other ↦ Chain-Decodes es ws l c (ground arith)
    ]

module _ (words : Slabs ℕ) (ws : List ℕ) (m : Models words ws) where
  same_words_lem :
      (i : ℕ) (a b : List ℕ)
      → length a ≡ length b
      → Holds ws i a
      → same_words words i b ≡ ok (list_eq nat_comparable.eq a b)
  unfolding same_words list_eq
  same_words_lem i [] [] e h = refl
  same_words_lem i [] (y ∷ b) e h = absurd (omega arith)
  same_words_lem i (x ∷ a) [] e h = absurd (omega arith)
  same_words_lem i (x ∷ a) (y ∷ b) e h =
      let next : i + 1 ≡ suc i = omega arith in
      rw (at-some words ws m i h.0, ◌>>=◌, next, same_words_lem (suc i) a b (omega arith) h.1)
        (ground arith)

  list_eq-length : (a b : List ℕ) → length a ≢ length b → list_eq nat_comparable.eq a b ≡ false
  list_eq-length a b h = elim (Bool-cases (list_eq nat_comparable.eq a b)) [
    | inl e ↦ absurd (h (ap length ((list_eq_iff nat_comparable a b).0 e)))
    | inr e ↦ e
  ]

  entry_equal_lem :
      (s : Span) (a b : List ℕ)
      → Decodes ws s a
      → entry_equal words s b ≡ ok (list_eq nat_comparable.eq a b)
  unfolding entry_equal
  entry_equal_lem s a b d = elim (Bool-cases (s.count == length b)) [
    | inl e ↦ rw e (same_words_lem s.start a b (ground (arith, d.0)) d.1)
    | inr e ↦ rw (e, list_eq-length a b (ground (arith, d.0)))
  ]

  -- For a well-formed chain of entries that starts at number `id`, with at least `id` rounds of
  -- fuel, the search returns, and its result is the span that the chain, read as a map from lists
  -- to spans, has for the list.
  pub find_words_lem :
      (entries : Slabs ListEntry) (es : List ListEntry)
      → Models entries es
      → (fuel : ℕ) (l : List ℕ) {id : ℕ} {c : Map (List ℕ) Span} → Chain es ws id c
      → id ≤ fuel
      → find_words fuel entries words id l ≡ ok (lookup l c)
  unfolding find_words lookup
  find_words_lem entries es me fuel l end h = refl
  find_words_lem entries es me zero l (link at next dec c) h = absurd (omega arith)
  find_words_lem entries es me (suc f) l (link {i} {e} {l = l'} at next dec c) h =
      rw
        (
          at-some entries es me i at,
          ◌>>=◌,
          entry_equal_lem e.span l' l dec,
          find_words_lem entries es me f l c (omega arith),
        )
        (elim (Bool-cases (list_eq nat_comparable.eq l' l)) [
          | inl same ↦ rw same
          | inr other ↦ rw other
        ])

-- The links stay inside the entries.
pub Chain-le :
    (es : List ListEntry) (ws : List ℕ) {id : ℕ} {m : Map (List ℕ) Span}
    → Chain es ws id m
    → id ≤ length es
Chain-le es ws end = omega arith
Chain-le es ws (link {i} at next dec c) = get_elem?-some_lt es i at
