-- ===== src/Payload/Lists.antt =====
-- The packers of texts and lists, with what they cost and what the ledger knows afterwards.
use osvpy.Prelude.{ℕ, suc, ◌+◌, ◌*◌, ◌≡◌, refl, List, [], ◌∷◌, length, Option, some, none, arith}
use osvpy.Text.{Text}
use osvpy.State.{pure}
use osvpy.Report.{Slice, items, ReportSeverity, ReportReference}
use osvpy.Report.Stored.{Span}
use osvpy.Payload.{M, optional_string, fingerprint, offset_basis}
use osvpy.Payload.Words.{pack_words}
use osvpy.Payload.Pack.{string_words, severity_words, reference_words, keep_scratch, pack_with}
use osvpy.Payload.Pack.{pack_strings, pack_severities, pack_references}
use osvpy.Payload.Ledger.{Ledger, Does}
use osvpy.Payload.Rules.{pure_Does, weaken, bind, bind_if, Extends-refl, Room-le}
use osvpy.Payload.Intern.{string_id_Does}
use osvpy.Payload.InternWords.{intern_words_Does}
use osvpy.Payload.Known.{
  KnownOption, KnownTexts, KnownWords, KnownSlice, severity_texts, reference_texts, over,
}
use osvpy.Payload.Known.{KnownText-IsStable, KnownTexts-IsStable, KnownTexts-length}

pub optional_string_Does :
    (s : Option Text) → Does (optional_string s) 1 (λ l id. KnownOption l s id)
unfolding optional_string
optional_string_Does none =
    weaken 1 (omega arith) (λ l a h. h) (pure_Does {Q = λ l id. id ≡ 0} 0 (λ l. refl))
optional_string_Does (some s) = string_id_Does s

pub string_words_Does :
    (vs : List Text) → Does (string_words vs) (length vs) (λ l ids. KnownTexts l vs ids)
unfolding string_words
string_words_Does [] = pure_Does [] (λ l. tt)
string_words_Does (v ∷ vs) =
    weaken (suc (length vs)) (omega arith) (λ l a h. h)
      (bind (KnownText-IsStable v) (string_id_Does v) λ id.
        bind (KnownTexts-IsStable vs) (string_words_Does vs)
          λ ids. pure_Does (id ∷ ids) λ l k h. (h, k))

pub severity_words_Does :
    (vs : List ReportSeverity)
    → Does
        (severity_words vs)
        (length (severity_texts vs))
        (λ l ids. KnownTexts l (severity_texts vs) ids)
unfolding severity_words
severity_words_Does [] = pure_Does [] (λ l. tt)
severity_words_Does (v ∷ vs) =
    weaken (suc (suc (suc (length (severity_texts vs))))) (omega arith) (λ l a h. h)
      (bind (KnownText-IsStable v.type) (string_id_Does v.type) λ type.
        bind (KnownText-IsStable v.source) (string_id_Does v.source) λ source.
          bind (KnownText-IsStable v.vector) (string_id_Does v.vector) λ vector.
            bind (KnownTexts-IsStable (severity_texts vs)) (severity_words_Does vs)
              λ ids. pure_Does (type ∷ source ∷ vector ∷ ids) λ l h₄ h₃ h₂ h₁. (h₁, (h₂, (h₃, h₄))))

pub reference_words_Does :
    (vs : List ReportReference)
    → Does
        (reference_words vs)
        (length (reference_texts vs))
        (λ l ids. KnownTexts l (reference_texts vs) ids)
unfolding reference_words
reference_words_Does [] = pure_Does [] (λ l. tt)
reference_words_Does (v ∷ vs) =
    weaken (suc (suc (length (reference_texts vs)))) (omega arith) (λ l a h. h)
      (bind (KnownText-IsStable v.type) (string_id_Does v.type) λ type.
        bind (KnownText-IsStable v.url) (string_id_Does v.url) λ url.
          bind (KnownTexts-IsStable (reference_texts vs)) (reference_words_Does vs)
            λ ids. pure_Does (type ∷ url ∷ ids) λ l h₃ h₂ h₁. (h₁, (h₂, h₃)))

keep_scratch_Does : (ws : List ℕ) → Does (keep_scratch ws) 0 (λ l _. Unit {0})
unfolding keep_scratch
keep_scratch_Does ws = record {
  runs = λ p l r rep room. (
    tt,
    record p { payload = record p.payload { scratch = ws } },
    l,
    refl,
    record {
      strings = rep.strings;
      words = rep.words;
      entries = rep.entries;
      ids = rep.ids;
      distinct = rep.distinct;
      chains = rep.chains;
    },
    Extends-refl l,
    Room-le l r (0 + r) (omega arith) room,
    tt,
  );
}

pack_words_Does :
    (ws : List ℕ) (n : ℕ)
    → length ws ≡ suc n
    → Does (pack_words (some ws)) (suc (suc n)) (λ l s. KnownWords l ws s)
unfolding pack_words
pack_words_Does [] n e = absurd (omega arith)
pack_words_Does (w ∷ ws) n e =
    weaken (suc (suc n)) (omega arith) (λ l a h. h)
      (intern_words_Does (w ∷ ws) (fingerprint offset_basis (w ∷ ws)))

-- What a slice may add to each table.
abbrev pub slice_cost : Slice Text → ℕ
slice_cost v = 2 * length (items v) + 1

-- A packer on a slice with elements, whose texts are `t ∷ ts`.
pack_some_Does :
    {A : Type 0} (words : List A → M (List ℕ)) (v : A) (vs : List A) (t : Text) (ts : List Text)
    → Does (words (v ∷ vs)) (suc (length ts)) (λ l ids. KnownTexts l (t ∷ ts) ids)
    → Does
        (pack_with words (some (v ∷ vs)))
        (slice_cost (some (t ∷ ts)))
        (λ l s. KnownSlice l (some (t ∷ ts)) s)
unfolding pack_with
pack_some_Does words v vs t ts d =
    weaken (slice_cost (some (t ∷ ts))) (omega arith) (λ l a h. h)
      (bind_if (λ ids. length ids ≡ suc (length ts)) (λ l ids. KnownTexts-length l (t ∷ ts) ids)
        (KnownTexts-IsStable (t ∷ ts)) d
        λ ws len.
          bind (λ s l l' x. x.spans _ ws s) (pack_words_Does ws (length ts) len)
            λ s.
              bind (λ _ l l' x h. h) (keep_scratch_Does ws)
                λ _. pure_Does s λ l _ known texts. (ws, texts, known))

pure_slice_Does :
    (v : Slice Text) (s : Span)
    → ((l : Ledger) → KnownSlice l v s)
    → Does (pure s) (slice_cost v) (λ l s. KnownSlice l v s)
pure_slice_Does v s h = weaken (slice_cost v) (omega arith) (λ l a k. k) (pure_Does s h)

pub pack_strings_Does :
    (v : Slice Text) → Does (pack_strings v) (slice_cost v) (λ l s. KnownSlice l v s)
unfolding pack_strings
pack_strings_Does none = pure_slice_Does none _ (λ l. refl)
pack_strings_Does (some []) = pure_slice_Does (some []) _ (λ l. refl)
pack_strings_Does (some (v ∷ vs)) =
    pack_some_Does string_words v vs v vs (string_words_Does (v ∷ vs))

pub pack_severities_Does :
    (v : Slice ReportSeverity)
    → Does
        (pack_severities v)
        (slice_cost (over severity_texts v))
        (λ l s. KnownSlice l (over severity_texts v) s)
unfolding pack_severities
pack_severities_Does none = pure_slice_Does none _ (λ l. refl)
pack_severities_Does (some []) = pure_slice_Does (some []) _ (λ l. refl)
pack_severities_Does (some (v ∷ vs)) =
    pack_some_Does severity_words v vs v.type (v.source ∷ v.vector ∷ severity_texts vs)
      (severity_words_Does (v ∷ vs))

pub pack_references_Does :
    (v : Slice ReportReference)
    → Does
        (pack_references v)
        (slice_cost (over reference_texts v))
        (λ l s. KnownSlice l (over reference_texts v) s)
unfolding pack_references
pack_references_Does none = pure_slice_Does none _ (λ l. refl)
pack_references_Does (some []) = pure_slice_Does (some []) _ (λ l. refl)
pack_references_Does (some (v ∷ vs)) =
    pack_some_Does reference_words v vs v.type (v.url ∷ reference_texts vs)
      (reference_words_Does (v ∷ vs))
