-- ===== src/Payload/Decode.antt =====
-- Reading back what the ledger knows: texts, options and lists.
use osvpy.Prelude.{ℕ, zero, suc, ◌+◌, ◌*◌, ◌/◌, ◌<◌, ◌≡◌, refl, ◌∙◌, List, [], ◌∷◌, length}
use osvpy.Prelude.{Option, some, none, Bool, false, arith, ◌==◌, get_elem?-some_lt, get_elem?}
use osvpy.Text.{Text}
use osvpy.Slabs.{uint32_zero}
use osvpy.Slabs.Laws.{at-some}
use osvpy.Run.{ok, ◌>>=◌}
use osvpy.Report.{Slice, ReportSeverity, ReportReference}
use osvpy.Report.Stored.{Span, nil_span_start}
use osvpy.Payload.{PayloadState, string_at, string_zero, optional_bool}
use osvpy.Payload.Ledger.{Ledger, Represents, Room, Holds}
use osvpy.Payload.Known.{
  KnownText, KnownOption, KnownTexts, KnownSlice, KnownText-row, KnownTexts-length,
}
use osvpy.Payload.Known.{KnownWords-Decodes, severity_texts, reference_texts, over}
use osvpy.Payload.Unpack.{
  optional_string_at, word_text, read_strings, read_severities, read_references,
}
use osvpy.Payload.Unpack.{unpack_strings, unpack_severities, unpack_references, bool_pointer}

pub bool_pointer-optional_bool : (b : Option Bool) → bool_pointer (optional_bool b) ≡ b
unfolding bool_pointer optional_bool
bool_pointer-optional_bool b = ground arith

length-severity_texts : (vs : List ReportSeverity) → length (severity_texts vs) ≡ 3 * length vs
length-severity_texts [] = omega arith
length-severity_texts (v ∷ vs) = omega (arith, length-severity_texts vs)

length-reference_texts : (vs : List ReportReference) → length (reference_texts vs) ≡ 2 * length vs
length-reference_texts [] = omega arith
length-reference_texts (v ∷ vs) = omega (arith, length-reference_texts vs)

module _ (p : PayloadState) (l : Ledger) (rep : Represents p l) where
  pub string_at_lem : (s : Text) {id : ℕ} → KnownText l s id → string_at p.strings id ≡ ok s
  unfolding string_at
  string_at_lem s h =
      let (j, e, at) = KnownText-row l s h in rw (e, at-some p.strings l.strs rep.strings j at)

  pub optional_string_at_lem :
      (s : Option Text) (id : ℕ)
      → KnownOption l s id
      → optional_string_at p.strings p.words id ≡ ok s
  unfolding optional_string_at
  optional_string_at_lem none id h = rw h
  optional_string_at_lem (some s) zero h = absurd (omega (arith, (KnownText-row l s h).1))
  optional_string_at_lem (some s) (suc i) h = rw (string_at_lem s h)

  word_text_lem :
      (i w : ℕ) (s : Text)
      → get_elem? l.words i ≡ some w
      → KnownText l s w
      → word_text p.strings p.words i ≡ ok s
  unfolding word_text
  word_text_lem i w s at h = rw (at-some p.words l.words rep.words i at, ◌>>=◌, string_at_lem s h)

  read_strings_lem :
      (ss : List Text) (ws : List ℕ) (i : ℕ)
      → KnownTexts l ss ws
      → Holds l.words i ws
      → read_strings p.strings p.words (length ss) i ≡ ok ss
  unfolding read_strings
  read_strings_lem [] ws i h k = refl
  read_strings_lem (s ∷ ss) [] i h k = absurd h
  read_strings_lem (s ∷ ss) (w ∷ ws) i h k =
      let next : i + 1 ≡ suc i = omega arith in
      rw (word_text_lem i w s k.0 h.0, ◌>>=◌, next, read_strings_lem ss ws (suc i) h.1 k.1)

  read_severities_lem :
      (vs : List ReportSeverity) (ws : List ℕ) (i : ℕ)
      → KnownTexts l (severity_texts vs) ws
      → Holds l.words i ws
      → read_severities p.strings p.words (length vs) i ≡ ok vs
  unfolding read_severities
  read_severities_lem [] ws i h k = refl
  read_severities_lem (v ∷ vs) [] i h k = absurd h
  read_severities_lem (v ∷ vs) (a ∷ []) i h k = absurd h.1
  read_severities_lem (v ∷ vs) (a ∷ b ∷ []) i h k = absurd h.1.1
  read_severities_lem (v ∷ vs) (a ∷ b ∷ c ∷ ws) i h k =
      let one : i + 1 ≡ suc i = omega arith in
      let two : i + 2 ≡ suc (suc i) = omega arith in
      let three : i + 3 ≡ suc (suc (suc i)) = omega arith in
      rw (
        word_text_lem i a v.type k.0 h.0,
        ◌>>=◌,
        one,
        word_text_lem (suc i) b v.source k.1.0 h.1.0,
        two,
        word_text_lem (suc (suc i)) c v.vector k.1.1.0 h.1.1.0,
        three,
        read_severities_lem vs ws (suc (suc (suc i))) h.1.1.1 k.1.1.1,
      )

  read_references_lem :
      (vs : List ReportReference) (ws : List ℕ) (i : ℕ)
      → KnownTexts l (reference_texts vs) ws
      → Holds l.words i ws
      → read_references p.strings p.words (length vs) i ≡ ok vs
  unfolding read_references
  read_references_lem [] ws i h k = refl
  read_references_lem (v ∷ vs) [] i h k = absurd h
  read_references_lem (v ∷ vs) (a ∷ []) i h k = absurd h.1
  read_references_lem (v ∷ vs) (a ∷ b ∷ ws) i h k =
      let one : i + 1 ≡ suc i = omega arith in
      let two : i + 2 ≡ suc (suc i) = omega arith in
      rw (
        word_text_lem i a v.type k.0 h.0,
        ◌>>=◌,
        one,
        word_text_lem (suc i) b v.url k.1.0 h.1.0,
        two,
        read_references_lem vs ws (suc (suc i)) h.1.1 k.1.1,
      )

  -- The words of a slice with elements: where they stand, and that they are not at the nil mark.
  module _ (room : Room l 0) (t : Text) (ts : List Text) (s : Span)
      (known : KnownSlice l (some (t ∷ ts)) s) where
    pub slice_words : (ws : List ℕ) × KnownTexts l (t ∷ ts) ws × Holds l.words s.start ws
    slice_words = (known.0, known.1, (KnownWords-Decodes p l rep known.0 known.2).1)

    pub slice-count : s.count ≡ suc (length ts)
    slice-count =
        (KnownWords-Decodes p l rep known.0 known.2).0
        ∙ KnownTexts-length l (t ∷ ts) known.0 known.1

    first_word :
        (ws : List ℕ)
        → KnownTexts l (t ∷ ts) ws
        → Holds l.words s.start ws
        → s.start < length l.words
    first_word [] h k = absurd h
    first_word (w ∷ ws) h k = get_elem?-some_lt l.words s.start k.0

    pub slice-not_nil : (s.start == nil_span_start) ≡ false
    slice-not_nil = ground (arith, room.words, first_word slice_words.0 slice_words.1 slice_words.2)

  module _ (room : Room l 0) where
    pub unpack_strings_lem :
        (v : Slice Text) (s : Span) → KnownSlice l v s → unpack_strings p.strings p.words s ≡ ok v
    unfolding unpack_strings
    unpack_strings_lem none s h = rw h
    unpack_strings_lem (some []) s h = rw h (unfold read_strings in refl)
    unpack_strings_lem (some (v ∷ vs)) s h =
        let (ws, texts, at) = slice_words room v vs s h in
        rw (
          slice-not_nil room v vs s h,
          slice-count room v vs s h,
          read_strings_lem (v ∷ vs) ws s.start texts at,
        )

    pub unpack_severities_lem :
        (v : Slice ReportSeverity) (s : Span)
        → KnownSlice l (over severity_texts v) s
        → unpack_severities p.strings p.words s ≡ ok v
    unfolding unpack_severities
    unpack_severities_lem none s h = rw h
    unpack_severities_lem (some []) s h = rw h (unfold read_severities in refl)
    unpack_severities_lem (some (v ∷ vs)) s h =
        let ts = v.source ∷ v.vector ∷ severity_texts vs in
        let (ws, texts, at) = slice_words room v.type ts s h in
        let count = slice-count room v.type ts s h in
        let elements : s.count / 3 ≡ suc (length vs) =
          omega (arith, count, length-severity_texts vs) in
        rw (
          slice-not_nil room v.type ts s h,
          elements,
          read_severities_lem (v ∷ vs) ws s.start texts at,
        )

    pub unpack_references_lem :
        (v : Slice ReportReference) (s : Span)
        → KnownSlice l (over reference_texts v) s
        → unpack_references p.strings p.words s ≡ ok v
    unfolding unpack_references
    unpack_references_lem none s h = rw h
    unpack_references_lem (some []) s h = rw h (unfold read_references in refl)
    unpack_references_lem (some (v ∷ vs)) s h =
        let ts = v.url ∷ reference_texts vs in
        let (ws, texts, at) = slice_words room v.type ts s h in
        let count = slice-count room v.type ts s h in
        let elements : s.count / 2 ≡ suc (length vs) =
          omega (arith, count, length-reference_texts vs) in
        rw (
          slice-not_nil room v.type ts s h,
          elements,
          read_references_lem (v ∷ vs) ws s.start texts at,
        )
