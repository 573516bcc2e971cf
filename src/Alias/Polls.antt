-- ===== src/Alias/Polls.antt =====
-- A context that is never cancelled stays so under `union` (go/store.go).
use osvpy.Prelude.{
  ℕ, ◌+◌, ◌≡◌, refl, ◌∙◌, List, [], ◌∷◌, length, none, pos, Option-cases, inl, inr, if◌then◌else◌,
}
use osvpy.Maps.{lookup, nat_comparable, list_comparable}
use osvpy.Text.{Text}
use osvpy.Run.{Ends, Ends-ok, Ends-after, Ends-bind, checked, index, store}
use osvpy.Context.{Context, check_context}
use osvpy.Alias.{AliasState, intern_alias, root, find_root, preferred, union_one, union_rest, union}

-- The context after the code is the given one.
abbrev Keeps : Context → ℕ × AliasState → Type 0
Keeps ctx r = r.1.ctx ≡ ctx

intern_alias-Keeps : (name : Text) (s : AliasState) → Ends (Keeps s.ctx) (intern_alias name s)
unfolding intern_alias
intern_alias-Keeps name s = elim (Option-cases (lookup name s.alias_id)) [
  | inr (i, h) ↦ rw (h, intern_alias) (Ends-ok (i, s) refl)
  | inl h ↦
      rw (h, intern_alias)
        (Ends-after (checked (pos (length s.names + 1)))
          λ _. Ends-after (checked (pos (length s.names))) λ id. Ends-ok _ refl)
]

root-Keeps : (id : ℕ) (s : AliasState) → Ends (Keeps s.ctx) (root id s)
unfolding root
root-Keeps id s = Ends-after (find_root (length s.names) s.parent id) λ r. Ends-ok _ refl

union_one-Keeps :
    (a : ℕ) (id : Text) (s : AliasState) → s.ctx ≡ none → Ends (Keeps none) (union_one a id s)
unfolding union_one check_context
union_one-Keeps a id s h = rw h (
    Ends-bind (intern_alias id (record s { ctx = none }))
      (intern_alias-Keeps id (record s { ctx = none }))
      λ (i, s₁) e. Ends-bind (root i s₁) (root-Keeps i s₁) λ (c, s₂) e'.
        Ends-after (index s₂.names c) λ nc. Ends-after (index s₂.names a) λ na.
          Ends-after
            (store s₂.parent (if preferred nc na then a else c) (if preferred nc na then c else a))
            λ parent. Ends-ok _ (e' ∙ e))

union_rest-Keeps :
    (ids : List Text) (a : ℕ) (s : AliasState)
    → s.ctx ≡ none
    → Ends (λ r. r.ctx ≡ none) (union_rest a ids s)
unfolding union_rest
union_rest-Keeps [] a s h = Ends-ok s h
union_rest-Keeps (id ∷ ids) a s h =
    Ends-bind (union_one a id s) (union_one-Keeps a id s h) λ (b, s') e. union_rest-Keeps ids b s' e

pub union-Keeps :
    (ids : List Text) (s : AliasState) → s.ctx ≡ none → Ends (λ r. r.ctx ≡ none) (union ids s)
unfolding union check_context
union-Keeps [] s h = Ends-ok s h
union-Keeps (id ∷ ids) s h = rw h (
    Ends-bind (intern_alias id (record s { ctx = none }))
      (intern_alias-Keeps id (record s { ctx = none }))
      λ (i, s₁) e.
        Ends-bind (root i s₁) (root-Keeps i s₁) λ (a, s₂) e'. union_rest-Keeps ids a s₂ (e' ∙ e))
