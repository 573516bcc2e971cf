-- ===== src/Payload/Collisions.antt =====
-- `internWords` and `stringID` (go/payload.go) called twice.
use osvpy.Prelude.{ℕ, suc, ◌+◌, ◌≡◌, ◌↔◌, List, length, some, arith}
use osvpy.Text.{Text}
use osvpy.Maps.{lookup, nat_comparable, list_comparable}
use osvpy.Run.{Returns}
use osvpy.Payload.{PayloadState, string_id}
use osvpy.Payload.Words.{intern_words}
use osvpy.Payload.Ledger.{Ledger, Represents, Room}
use osvpy.Payload.Known.{KnownText, KnownText-IsStable, KnownText-functional, KnownText-injective}
use osvpy.Payload.Chain.{Chain-Decodes, Decodes-unique}
use osvpy.Payload.Intern.{string_id_Does}
use osvpy.Payload.InternWords.{intern_words_Does}
use osvpy.Payload.Identity.{pack_both, pack_identity}

-- On payload tables that represent a ledger with room for two texts, numbering two texts one after
-- the other returns, and the numbers are equal exactly when the texts are equal.
pub string_id-identity :
    (s t : Text) (p : PayloadState) (l : Ledger)
    → Represents p l
    → Room l 2
    → Returns (pack_both string_id s t p) λ r. (r.0.0 ≡ r.0.1) ↔ (s ≡ t)
string_id-identity s t p l rep room =
    pack_identity string_id KnownText KnownText-IsStable (λ l s a b. KnownText-functional l s)
      (λ p l rep v w a. KnownText-injective l v w) s t 1 1 (string_id_Does s) (string_id_Does t) p l
      rep room

-- On payload tables that represent a ledger with room for their words and two entries, filing two
-- lists of words one after the other under one fingerprint, which may be any number, returns, and
-- the two spans are equal exactly when the lists are equal.
pub intern_words-identity :
    (h : ℕ) (ws vs : List ℕ) (p : PayloadState) (l : Ledger)
    → Represents p l
    → Room l (suc (length ws) + suc (length vs))
    → Returns (pack_both (λ us. intern_words us h) ws vs p) λ r. (r.0.0 ≡ r.0.1) ↔ (ws ≡ vs)
intern_words-identity h ws vs p l rep room =
    pack_identity (λ us. intern_words us h) (λ l us s. lookup us (l.chain h) ≡ some s)
      (λ us s l l' x e. x.spans h us s e) (λ l us a b e e'. ground (arith, e, e'))
      (λ p l rep us ys s e e'.
        Decodes-unique l.words s us ys (Chain-Decodes l.entries l.words us (rep.chains h) e)
          (Chain-Decodes l.entries l.words ys (rep.chains h) e'))
      ws vs _ _ (intern_words_Does ws h) (intern_words_Does vs h) p l rep room
