-- ===== src/Alias/Groups.antt =====
-- The groups of aliases that `internAlias` and `union` (go/store.go) make.
use osvpy.Prelude.{
  subst, ℕ, ◌+◌, ◌≤◌, ◌<◌, ◌≡◌, refl, sym, List, [], ◌∷◌, ◌++◌, length, some, none, arith,
  Bool-cases, Option-cases, ◌==◌,
}
use osvpy.Prelude.{
  ◌⊎◌, inl, inr, get_elem?, get_elem?-append_some, get_elem?-snoc, get_elem?-snoc_cases,
  length-append,
}
use osvpy.Text.{Text}
use osvpy.Maps.{
  Map, list_eq, list_eq_iff, lookup, insert, lookup-insert, nat_comparable, list_comparable,
}
use osvpy.Run.{◌>>=◌, Returns, max_uint32, checked_lem}
use osvpy.Alias.{AliasState, intern_alias}
use osvpy.Alias.Forest.{Better, IsForest, RootOf, here, up}

-- The numbers of the names are their positions, and the parents are a forest.
pub record IsGrouped (s : AliasState) : Type 0 where
  pub forest : IsForest s.names s.parent
  pub known : (t : Text) (i : ℕ) → lookup t s.alias_id ≡ some i → get_elem? s.names i ≡ some t
  pub listed : (t : Text) (i : ℕ) → get_elem? s.names i ≡ some t → lookup t s.alias_id ≡ some i

Better-append :
    {names : List Text} (more : List Text) {p i : ℕ} → Better names p i → Better (names ++ more) p i
Better-append {names} more {p} {i} b = record {
  better = b.better;
  worse = b.worse;
  at_p = get_elem?-append_some names more p b.at_p;
  at_i = get_elem?-append_some names more i b.at_i;
  order = b.order;
}

RootOf-append :
    {parent : List ℕ} (more : List ℕ) {i r : ℕ} → RootOf parent i r → RootOf (parent ++ more) i r
RootOf-append {parent} more (here {i = i} e) = here (get_elem?-append_some parent more i e)
RootOf-append {parent} more (up {i = i} e d) =
    up (get_elem?-append_some parent more i e) (RootOf-append more d)

snoc-IsForest :
    (names : List Text) (parent : List ℕ) (t : Text)
    → IsForest names parent
    → IsForest (names ++ t ∷ []) (parent ++ length names ∷ [])
snoc-IsForest names parent t f = record {
  size =
      omega (arith, length-append names (t ∷ []), length-append parent (length names ∷ []), f.size);
  links = λ i p e. elim (get_elem?-snoc_cases parent (length names) i e) [
    | inl old ↦ elim (f.links i p old) [
      | inl same ↦ inl same
      | inr b ↦ inr (Better-append (t ∷ []) b)
    ]
    | inr new ↦ inl (omega (arith, f.size, new.0, new.1))
  ];
}

-- What interning a name promises.
pub record Interned (name : Text) (s : AliasState) (r : ℕ × AliasState) : Type 0 where
  pub grouped : IsGrouped r.1
  pub found : lookup name r.1.alias_id ≡ some r.0
  pub kept : (t : Text) (i : ℕ) → lookup t s.alias_id ≡ some i → lookup t r.1.alias_id ≡ some i
  pub roots : (j q : ℕ) → RootOf s.parent j q → RootOf r.1.parent j q
  pub room : length r.1.names ≤ length s.names + 1
  pub new :
      (t : Text) (i : ℕ)
      → lookup t r.1.alias_id ≡ some i
      → (t ≡ name) ⊎ (lookup t s.alias_id ≡ some i)
  pub lone :
      lookup name s.alias_id ≡ none → (r.0 ≡ length s.names) × (get_elem? r.1.parent r.0 ≡ some r.0)
  pub still : r.1.ctx ≡ s.ctx

inserted : (name : Text) (n : ℕ) (m : Map Text ℕ) → lookup name (insert name n m) ≡ some n
inserted name n m =
    ground (arith, lookup-insert name name n m, list_eq_iff nat_comparable name name)

-- The key is new, so that another one keeps its value.
inserted_kept :
    (name t : Text) (n j : ℕ) (m : Map Text ℕ)
    → lookup name m ≡ none
    → lookup t m ≡ some j
    → lookup t (insert name n m) ≡ some j
inserted_kept name t n j m e h =
    ground (arith, lookup-insert name t n m, list_eq_iff nat_comparable name t)

inserted_cases :
    (name t : Text) (n j : ℕ) (m : Map Text ℕ)
    → lookup t (insert name n m) ≡ some j
    → ((t ≡ name) × (j ≡ n)) ⊎ (lookup t m ≡ some j)
inserted_cases name t n j m h = elim (Bool-cases (list_eq (λ a b. a == b) name t)) [
  | inl same ↦
      inl
        (sym ((list_eq_iff nat_comparable name t).0 same), ground (arith, lookup-insert name t n m))
  | inr other ↦ inr (ground (arith, lookup-insert name t n m))
]

interned-IsGrouped :
    (name : Text) (s : AliasState)
    → IsGrouped s
    → lookup name s.alias_id ≡ none
    → IsGrouped (record s {
      alias_id = insert name (length s.names) s.alias_id;
      names = s.names ++ name ∷ [];
      parent = s.parent ++ length s.names ∷ [];
    })
interned-IsGrouped name s g e = record {
  forest = snoc-IsForest s.names s.parent name g.forest;
  known = λ t i h. elim (inserted_cases name t (length s.names) i s.alias_id h) [
    | inl new ↦ rw (new.0, new.1) (get_elem?-snoc s.names name)
    | inr old ↦ get_elem?-append_some s.names (name ∷ []) i (g.known t i old)
  ];
  listed = λ t i h. elim (get_elem?-snoc_cases s.names name i h) [
    | inl old ↦ inserted_kept name t (length s.names) i s.alias_id e (g.listed t i old)
    | inr new ↦ rw (new.0, new.1) (inserted name (length s.names) s.alias_id)
  ];
}

last_parent :
    (parent : List ℕ) (n : ℕ) → length parent ≡ n → get_elem? (parent ++ n ∷ []) n ≡ some n
last_parent parent n e =
    subst (λ k. get_elem? (parent ++ n ∷ []) k ≡ some n) e (get_elem?-snoc parent n)

pub intern_alias-Interned :
    (name : Text) (s : AliasState)
    → IsGrouped s
    → length s.names < max_uint32
    → Returns (intern_alias name s) (Interned name s)
unfolding intern_alias
intern_alias-Interned name s g room = elim (Option-cases (lookup name s.alias_id)) [
  | inr (i, e) ↦ (
    (i, s),
    rw (intern_alias, e) refl,
    record {
      grouped = g;
      found = e;
      kept = λ t j h. h;
      roots = λ j q d. d;
      room = omega arith;
      new = λ t j h. inr h;
      lone = λ h. absurd (cc);
      still = refl;
    },
  )
  | inl e ↦
      let n = length s.names in
      let s' : AliasState = record s {
        alias_id = insert name n s.alias_id;
        names = s.names ++ name ∷ [];
        parent = s.parent ++ n ∷ [];
      } in
      (
        (n, s'),
        rw (intern_alias, e, checked_lem (n + 1) (omega arith), ◌>>=◌, checked_lem n (omega arith))
            refl,
        record {
          grouped = interned-IsGrouped name s g e;
          found = inserted name n s.alias_id;
          kept = λ t j h. inserted_kept name t n j s.alias_id e h;
          roots = λ j q d. RootOf-append (n ∷ []) d;
          room = omega (arith, length-append s.names (name ∷ []));
          new = λ t j h. elim (inserted_cases name t n j s.alias_id h) [
            | inl x ↦ inl x.0
            | inr x ↦ inr x
          ];
          lone = λ h. (refl, last_parent s.parent n g.forest.size);
          still = refl;
        },
      )
]
