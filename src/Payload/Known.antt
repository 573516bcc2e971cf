-- ===== src/Payload/Known.antt =====
-- What the ledger knows of a value: that it stands under this number, or this span.
use osvpy.Prelude.{
  ℕ, suc, ◌<◌, ◌≡◌, refl, ap, sym, ◌∙◌, ap₂, subst, List, [], ◌∷◌, length, Option, some, none,
}
use osvpy.Prelude.{get_elem?, arith}
use osvpy.Prelude.{Option-cases, inl, inr}
use osvpy.Text.{Text}
use osvpy.Maps.{lookup, nat_comparable, list_comparable}
use osvpy.Report.{Slice, ReportSeverity, ReportReference}
use osvpy.Report.Stored.{Span, nil_span_start}
use osvpy.Table.Laws.{index_of, index_from_sound}
use osvpy.Payload.{PayloadState, fingerprint, offset_basis}
use osvpy.Payload.Ledger.{Ledger, IsStable, string_ref, Represents, Decodes}
use osvpy.Payload.Chain.{Chain-Decodes, Decodes-unique}

abbrev pub KnownText : Ledger → Text → ℕ → Type 0
KnownText l s id = string_ref l.strs s ≡ some id

-- An absent text has number 0, which no text has.
abbrev pub KnownOption : Ledger → Option Text → ℕ → Type 0
KnownOption l none id = id ≡ 0
KnownOption l (some s) id = KnownText l s id

abbrev pub KnownTexts : Ledger → List Text → List ℕ → Type 0
KnownTexts l [] [] = Unit
KnownTexts l [] (i ∷ is) = ⊥
KnownTexts l (s ∷ ss) [] = ⊥
KnownTexts l (s ∷ ss) (i ∷ is) = KnownText l s i × KnownTexts l ss is

-- The words stand under the span, in the chain of their own fingerprint.
abbrev pub KnownWords : Ledger → List ℕ → Span → Type 0
KnownWords l ws s = lookup ws (l.chain (fingerprint offset_basis ws)) ≡ some s

-- A nil slice, an empty one and the others have spans of three kinds.
abbrev pub KnownSlice : Ledger → Slice Text → Span → Type 0
KnownSlice l none s = s ≡ record { start = nil_span_start; count = 0 }
KnownSlice l (some []) s = s ≡ record { start = 0; count = 0 }
KnownSlice l (some (v ∷ vs)) s = (ws : List ℕ) × KnownTexts l (v ∷ vs) ws × KnownWords l ws s

-- The texts of the elements, in the order in which the packers store them.
abbrev pub severity_texts : List ReportSeverity → List Text
severity_texts [] = []
severity_texts (v ∷ vs) = v.type ∷ v.source ∷ v.vector ∷ severity_texts vs

abbrev pub reference_texts : List ReportReference → List Text
reference_texts [] = []
reference_texts (v ∷ vs) = v.type ∷ v.url ∷ reference_texts vs

pub KnownText-IsStable : (s : Text) (id : ℕ) → IsStable (λ l. KnownText l s id)
KnownText-IsStable s id l l' x h = x.refs s id h

pub KnownOption-IsStable : (s : Option Text) (id : ℕ) → IsStable (λ l. KnownOption l s id)
KnownOption-IsStable none id l l' x h = h
KnownOption-IsStable (some s) id l l' x h = x.refs s id h

pub KnownTexts-IsStable : (ss : List Text) (is : List ℕ) → IsStable (λ l. KnownTexts l ss is)
KnownTexts-IsStable [] [] l l' x h = tt
KnownTexts-IsStable [] (i ∷ is) l l' x h = h
KnownTexts-IsStable (s ∷ ss) [] l l' x h = h
KnownTexts-IsStable (s ∷ ss) (i ∷ is) l l' x h =
    (x.refs s i h.0, KnownTexts-IsStable ss is l l' x h.1)

pub KnownSlice-IsStable : (v : Slice Text) (s : Span) → IsStable (λ l. KnownSlice l v s)
KnownSlice-IsStable none s l l' x h = h
KnownSlice-IsStable (some []) s l l' x h = h
KnownSlice-IsStable (some (v ∷ vs)) s l l' x (ws, h, k) =
    (ws, KnownTexts-IsStable (v ∷ vs) ws l l' x h, x.spans _ ws s k)

pub KnownTexts-length :
    (l : Ledger) (ss : List Text) (is : List ℕ) → KnownTexts l ss is → length is ≡ length ss
KnownTexts-length l [] [] h = refl
KnownTexts-length l [] (i ∷ is) h = absurd h
KnownTexts-length l (s ∷ ss) [] h = absurd h
KnownTexts-length l (s ∷ ss) (i ∷ is) h = ap suc (KnownTexts-length l ss is h.1)

-- The number of a text is one more than its row.
pub KnownText-row :
    (l : Ledger) (s : Text) {id : ℕ}
    → KnownText l s id
    → (j : ℕ) × (id ≡ suc j) × (get_elem? l.strs j ≡ some s)
KnownText-row l s {id} h = elim (Option-cases (index_of s l.strs)) [
  | inl e ↦ absurd (ground arith)
  | inr (i, e) ↦ let (j, same, at) = index_from_sound 0 s l.strs e in (j, ground arith, at)
]

-- One text, one number; one number, one text.
pub KnownText-functional :
    (l : Ledger) (s : Text) {i j : ℕ} → KnownText l s i → KnownText l s j → i ≡ j
KnownText-functional l s h k = ground arith

pub KnownText-injective :
    (l : Ledger) (s t : Text) {i : ℕ} → KnownText l s i → KnownText l t i → s ≡ t
KnownText-injective l s t h k =
    let (a, e, f) = KnownText-row l s h in let (b, e', f') = KnownText-row l t k in ground arith

pub KnownOption-functional :
    (l : Ledger) (s : Option Text) {i j : ℕ} → KnownOption l s i → KnownOption l s j → i ≡ j
KnownOption-functional l none h k = omega arith
KnownOption-functional l (some s) h k = ground arith

pub KnownOption-injective :
    (l : Ledger) (s t : Option Text) (i : ℕ) → KnownOption l s i → KnownOption l t i → s ≡ t
KnownOption-injective l none none i h k = refl
KnownOption-injective l none (some t) i h k = absurd (omega (arith, (KnownText-row l t k).1))
KnownOption-injective l (some s) none i h k = absurd (omega (arith, (KnownText-row l s h).1))
KnownOption-injective l (some s) (some t) i h k = ap some (KnownText-injective l s t h k)

KnownTexts-functional :
    (l : Ledger) (ss : List Text) (is js : List ℕ)
    → KnownTexts l ss is
    → KnownTexts l ss js
    → is ≡ js
KnownTexts-functional l [] [] [] h k = refl
KnownTexts-functional l [] [] (j ∷ js) h k = absurd k
KnownTexts-functional l [] (i ∷ is) js h k = absurd h
KnownTexts-functional l (s ∷ ss) [] js h k = absurd h
KnownTexts-functional l (s ∷ ss) (i ∷ is) [] h k = absurd k
KnownTexts-functional l (s ∷ ss) (i ∷ is) (j ∷ js) h k =
    ap₂ ◌∷◌ (KnownText-functional l s h.0 k.0) (KnownTexts-functional l ss is js h.1 k.1)

KnownTexts-injective :
    (l : Ledger) (ss ts : List Text) (is : List ℕ)
    → KnownTexts l ss is
    → KnownTexts l ts is
    → ss ≡ ts
KnownTexts-injective l [] [] is h k = refl
KnownTexts-injective l [] (t ∷ ts) [] h k = absurd k
KnownTexts-injective l [] (t ∷ ts) (i ∷ is) h k = absurd h
KnownTexts-injective l (s ∷ ss) [] [] h k = absurd h
KnownTexts-injective l (s ∷ ss) [] (i ∷ is) h k = absurd k
KnownTexts-injective l (s ∷ ss) (t ∷ ts) [] h k = absurd h
KnownTexts-injective l (s ∷ ss) (t ∷ ts) (i ∷ is) h k =
    ap₂ ◌∷◌ (KnownText-injective l s t h.0 k.0) (KnownTexts-injective l ss ts is h.1 k.1)

pub KnownSlice-functional :
    (l : Ledger) (v : Slice Text) {s t : Span} → KnownSlice l v s → KnownSlice l v t → s ≡ t
KnownSlice-functional l none h k = h ∙ sym k
KnownSlice-functional l (some []) h k = h ∙ sym k
KnownSlice-functional l (some (v ∷ vs)) {s = s} (ws, h, e) (us, k, f) =
    let same = KnownTexts-functional l (v ∷ vs) ws us h k in
    let again : KnownWords l us s = subst (λ x. KnownWords l x s) same e in ground arith

module _ (p : PayloadState) (l : Ledger) (rep : Represents p l) where
  pub KnownWords-Decodes : (ws : List ℕ) {s : Span} → KnownWords l ws s → Decodes l.words s ws
  KnownWords-Decodes ws h = Chain-Decodes l.entries l.words ws (rep.chains _) h

  -- A list with elements has a span with elements.
  KnownSlice-count :
      (v : Text) (vs : List Text) (s : Span) → KnownSlice l (some (v ∷ vs)) s → 0 < s.count
  KnownSlice-count v vs s (ws, h, e) =
      omega (arith, KnownTexts-length l (v ∷ vs) ws h, (KnownWords-Decodes ws e).0)

  -- One span, one slice: nil, empty and the others are told apart.
  pub KnownSlice-injective :
      (v w : Slice Text) (s : Span) → KnownSlice l v s → KnownSlice l w s → v ≡ w
  KnownSlice-injective none none s h k = refl
  KnownSlice-injective none (some []) s h k = absurd (ground arith)
  KnownSlice-injective none (some (y ∷ ys)) s h k =
      absurd (ground (arith, KnownSlice-count y ys s k))
  KnownSlice-injective (some []) none s h k = absurd (ground arith)
  KnownSlice-injective (some []) (some []) s h k = refl
  KnownSlice-injective (some []) (some (y ∷ ys)) s h k =
      absurd (ground (arith, KnownSlice-count y ys s k))
  KnownSlice-injective (some (x ∷ xs)) none s h k =
      absurd (ground (arith, KnownSlice-count x xs s h))
  KnownSlice-injective (some (x ∷ xs)) (some []) s h k =
      absurd (ground (arith, KnownSlice-count x xs s h))
  KnownSlice-injective (some (x ∷ xs)) (some (y ∷ ys)) s (ws, h, e) (us, k, f) =
      let same =
        Decodes-unique l.words s ws us (KnownWords-Decodes ws e) (KnownWords-Decodes us f) in
      let again : KnownTexts l (y ∷ ys) ws = subst (λ a. KnownTexts l (y ∷ ys) a) (sym same) k in
      ap some (KnownTexts-injective l (x ∷ xs) (y ∷ ys) ws h again)

pub severity_texts-injective :
    (vs ws : List ReportSeverity) → severity_texts vs ≡ severity_texts ws → vs ≡ ws
severity_texts-injective [] [] e = refl
severity_texts-injective [] (w ∷ ws) e = absurd (ground arith)
severity_texts-injective (v ∷ vs) [] e = absurd (ground arith)
severity_texts-injective (v ∷ vs) (w ∷ ws) e = ground (arith, severity_texts-injective vs ws)

pub reference_texts-injective :
    (vs ws : List ReportReference) → reference_texts vs ≡ reference_texts ws → vs ≡ ws
reference_texts-injective [] [] e = refl
reference_texts-injective [] (w ∷ ws) e = absurd (ground arith)
reference_texts-injective (v ∷ vs) [] e = absurd (ground arith)
reference_texts-injective (v ∷ vs) (w ∷ ws) e = ground (arith, reference_texts-injective vs ws)

-- A function on lists, below a slice's nil.
abbrev pub over : {A B : Type 0} → (List A → List B) → Slice A → Slice B
over f none = none
over f (some xs) = some (f xs)
