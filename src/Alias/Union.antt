-- ===== src/Alias/Union.antt =====
-- A round of `union` (go/store.go), and all of them.
use osvpy.Prelude.{
  ℕ, ◌+◌, ◌≤◌, ◌<◌, ◌≡◌, refl, sym, ap, subst, ◌∙◌, List, [], ◌∷◌, length, some, none, arith,
}
use osvpy.Prelude.{◌⊎◌, inl, inr, get_elem?, set, get_elem?-some_lt, get_elem?_of_lt, All}
use osvpy.Text.{Text}
use osvpy.Maps.{lookup, nat_comparable, list_comparable}
use osvpy.Run.{ok, ◌>>=◌, Returns, max_uint32, index_lem, store_lem}
use osvpy.Context.{check_context}
use osvpy.Alias.{AliasState, intern_alias, root, union_one, union_rest, union}
use osvpy.Alias.Forest.{IsForest, RootOf, here, RootOf-root}
use osvpy.Alias.Groups.{IsGrouped, intern_alias-Interned}
use osvpy.Alias.Root.{root_lem}
use osvpy.Alias.Linking.{
  winner, loser, linked, linked-IsGrouped, linked_top, loser_inside, linked-RootOf_either,
  linked-RootOf_both, linked-RootOf_other, winner_cases,
}
use osvpy.Alias.Classes.{
  Sits, Joined, Spares, origin, root_inside, not_joined, follow, Joined-trans, still_apart,
  Spares-trans,
}

root_name :
    (s : AliasState) (i : ℕ)
    → IsForest s.names s.parent
    → get_elem? s.parent i ≡ some i
    → (t : Text) × (get_elem? s.names i ≡ some t)
root_name s i f e =
    get_elem?_of_lt s.names i (subst (λ n. i < n) f.size (get_elem?-some_lt s.parent i e))

union_one_run :
    (a : ℕ) (id : Text) (s : AliasState) (i : ℕ) (s1 : AliasState) (c : ℕ) (parent : List ℕ)
    (na nc : Text)
    → s.ctx ≡ none
    → intern_alias id s ≡ ok (i, s1)
    → root i s1 ≡ ok (c, record s1 { parent = parent })
    → get_elem? s1.names a ≡ some na
    → get_elem? s1.names c ≡ some nc
    → loser nc na c a < length parent
    → union_one a id s
      ≡ ok
          (winner nc na c a, record s1 { parent = set parent (loser nc na c a) (winner nc na c a) })
unfolding union_one check_context
union_one_run a id s i s1 c parent na nc calm e1 e2 at_a at_c inside =
    let self : s ≡ record s { ctx = none } = ap (λ x. record s { ctx = x }) calm in
    let e1' : intern_alias id (record s { ctx = none }) ≡ ok (i, s1) =
      ap (intern_alias id) (sym self) ∙ e1 in
    rw (calm, ◌>>=◌, e1', e2, index_lem s1.names c at_c, index_lem s1.names a at_a)
      (rw (store_lem parent (loser nc na c a) (winner nc na c a) inside) refl)

union_one-Joined :
    (a : ℕ) (id : Text) (s : AliasState)
    → IsGrouped s
    → s.ctx ≡ none
    → length s.names < max_uint32
    → get_elem? s.parent a ≡ some a
    → Returns (union_one a id s) λ r.
      Joined a s r.0 r.1
      × Spares a (id ∷ []) s r.0 r.1
      × Sits r.1 r.0 id
      × (length r.1.names ≤ length s.names + 1)
unfolding union_one
union_one-Joined a id s g calm room root_a =
    let ((i, s1), run1, in1) = intern_alias-Interned id s g room in
    let (c, parent, run2, d, f2, keep2) =
      root_lem i s1 in1.grouped.forest
        (get_elem?-some_lt s1.names i (in1.grouped.known id i in1.found)) in
    let s2 : AliasState = record s1 { parent = parent } in
    let g2 : IsGrouped s2 = record {
      forest = f2;
      known = in1.grouped.known;
      listed = in1.grouped.listed;
    } in
    let root_a2 = RootOf-root (keep2 a a (in1.roots a a (here root_a))) in
    let root_c2 = RootOf-root (keep2 i c d) in
    let (na, at_a) = root_name s2 a f2 root_a2 in
    let (nc, at_c) = root_name s2 c f2 root_c2 in
    let win = winner nc na c a in
    let s3 = linked s2 g2 a c na nc at_a at_c root_a2 root_c2 in
    let from = origin id s (i, s1) c g in1 d in
    let sits : Sits s3 win id = (
      i,
      in1.found,
      linked-RootOf_both s2 g2 a c na nc at_a at_c root_a2 root_c2 (keep2 i c d) (inr refl),
    ) in
    (
      (winner nc na c a, linked s2 g2 a c na nc at_a at_c root_a2 root_c2),
      union_one_run a id s i s1 c parent na nc calm run1 run2 at_a at_c
          (loser_inside s2 g2 a c na nc at_a at_c root_a2 root_c2),
      (
        record {
          grouped = linked-IsGrouped s2 g2 a c na nc at_a at_c root_a2 root_c2;
          top = linked_top s2 g2 a c na nc at_a at_c root_a2 root_c2;
          kept = in1.kept;
          moves = λ q. elim (linked-RootOf_either s2 g2 a c na nc at_a at_c root_a2 root_c2 q) [
            | inl f ↦ inl (λ j x. f j (keep2 j q (in1.roots j q x)))
            | inr f ↦ inr (λ j x. f j (keep2 j q (in1.roots j q x)))
          ];
          joins = λ j x.
              linked-RootOf_both s2 g2 a c na nc at_a at_c root_a2 root_c2
                (keep2 j a (in1.roots j a x)) (inl refl);
          new = λ t k e. elim (in1.new t k e) [
            | inr old ↦ inl old
            | inl it ↦ inr (subst (Sits s3 win) (sym it) sits)
          ];
          calm = in1.still ∙ calm;
        },
        record {
          spared = λ j q not_a nots x.
              linked-RootOf_other s2 g2 a c na nc at_a at_c root_a2 root_c2
                (keep2 j q (in1.roots j q x)) not_a
                (not_joined id s q c from (root_inside s q g.forest (RootOf-root x)) nots.0);
          apart = λ q top not_a nots.
              let not_c = not_joined id s q c from (root_inside s q g.forest top) nots.0 in
              elim (winner_cases s2 g2 a c na nc at_a at_c root_a2 root_c2) [
                | inl x ↦ λ e. not_a (e ∙ x)
                | inr x ↦ λ e. not_c (e ∙ x)
              ];
        },
        sits,
        in1.room,
      ),
    )

union_rest-Joined :
    (a : ℕ) (ids : List Text) (s : AliasState)
    → IsGrouped s
    → s.ctx ≡ none
    → length s.names + length ids ≤ max_uint32
    → get_elem? s.parent a ≡ some a
    → Returns
        (union_rest a ids s)
        λ s'. (w : ℕ) × Joined a s w s' × Spares a ids s w s' × All (Sits s' w) ids
unfolding union_rest
union_rest-Joined a [] s g calm room top =
    let none_joined : Joined a s a s = record {
      grouped = g;
      top = top;
      kept = λ t i e. e;
      moves = λ q. inl (λ j d. d);
      joins = λ j d. d;
      new = λ t i e. inl e;
      calm = calm;
    } in
    (
      s,
      refl,
      (a, none_joined, record { spared = λ j q ne nots d. d; apart = λ q top ne nots. ne }, tt),
    )
union_rest-Joined a (id ∷ ids) s g calm room top =
    let ((b, s1), run, (h, m, sits, grown)) = union_one-Joined a id s g calm (omega arith) top in
    let (s2, rest, (w, k, l, all)) =
      union_rest-Joined b ids s1 h.grouped h.calm (omega arith) h.top in
    (
      s2,
      rw (run, ◌>>=◌) rest,
      (
        w,
        Joined-trans h k,
        Spares-trans a b w id ids s s1 s2 g h m l,
        (follow b s1 w s2 id k sits, all),
      ),
    )

union_run :
    (id : Text) (ids : List Text) (s : AliasState) (i : ℕ) (s1 : AliasState) (c : ℕ)
    (parent : List ℕ)
    → s.ctx ≡ none
    → intern_alias id s ≡ ok (i, s1)
    → root i s1 ≡ ok (c, record s1 { parent = parent })
    → union (id ∷ ids) s ≡ union_rest c ids (record s1 { parent = parent })
unfolding union check_context
union_run id ids s i s1 c parent calm e1 e2 =
    let self : s ≡ record s { ctx = none } = ap (λ x. record s { ctx = x }) calm in
    let e1' : intern_alias id (record s { ctx = none }) ≡ ok (i, s1) =
      ap (intern_alias id) (sym self) ∙ e1 in
    rw (calm, ◌>>=◌, e1', e2) refl

-- For alias groups whose parents are a well-formed forest and whose table numbers the names by
-- position, a context that is never cancelled and room for the names, `union` of a list of names
-- returns well-formed groups with a root that is the root of all the names of the list; the names
-- keep their numbers, all names of an old group have their old root or all of them have that one,
-- and a name keeps its old root if that was the root of none of the names of the list.
pub union-Joined :
    (id : Text) (ids : List Text) (s : AliasState)
    → IsGrouped s
    → s.ctx ≡ none
    → length s.names + length (id ∷ ids) ≤ max_uint32
    → Returns (union (id ∷ ids) s) λ s'.
      IsGrouped s'
      × (w : ℕ) × All (Sits s' w) (id ∷ ids)
      × ((t : Text) (i : ℕ) → lookup t s.alias_id ≡ some i → lookup t s'.alias_id ≡ some i)
      × ((q : ℕ)
          → ((j : ℕ) → RootOf s.parent j q → RootOf s'.parent j q)
            ⊎ ((j : ℕ) → RootOf s.parent j q → RootOf s'.parent j w))
      × ((j q : ℕ)
          → RootOf s.parent j q
          → All (λ t. ¬ Sits s q t) (id ∷ ids)
          → RootOf s'.parent j q)
union-Joined id ids s g calm room =
    let ((i, s1), run1, in1) = intern_alias-Interned id s g (omega arith) in
    let (c, parent, run2, d, f2, keep2) =
      root_lem i s1 in1.grouped.forest
        (get_elem?-some_lt s1.names i (in1.grouped.known id i in1.found)) in
    let s2 : AliasState = record s1 { parent = parent } in
    let sits : Sits s2 c id = (i, in1.found, keep2 i c d) in
    let first : Joined c s c s2 = record {
      grouped = record { forest = f2; known = in1.grouped.known; listed = in1.grouped.listed };
      top = RootOf-root (keep2 i c d);
      kept = in1.kept;
      moves = λ q. inl (λ j x. keep2 j q (in1.roots j q x));
      joins = λ j x. keep2 j c (in1.roots j c x);
      new = λ t k e. elim (in1.new t k e) [
        | inr old ↦ inl old
        | inl it ↦ inr (subst (Sits s2 c) (sym it) sits)
      ];
      calm = in1.still ∙ calm;
    } in
    let (s3, run3, (w, h, l, all)) =
      union_rest-Joined c ids s2 first.grouped first.calm (omega (arith, in1.room)) first.top in
    let whole = Joined-trans first h in
    let from = origin id s (i, s1) c g in1 d in
    (
      s3,
      union_run id ids s i s1 c parent calm run1 run2 ∙ run3,
      (
        h.grouped,
        w,
        (follow c s2 w s3 id h sits, all),
        whole.kept,
        whole.moves,
        λ j q x nots.
            let ne = not_joined id s q c from (root_inside s q g.forest (RootOf-root x)) nots.0 in
            l.spared j q ne (still_apart c s c s2 q ids g first ne nots.1)
              (keep2 j q (in1.roots j q x)),
      ),
    )
