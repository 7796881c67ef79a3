-- ===== src/LiveAttrs/Laconf/Created.antt =====
-- liveattrs/laconf/provider.go: what Create guarantees of a configuration that it returns.
use cnc_masm.Prelude.{
  ◌≡◌, refl, sym, ap, ◌∙◌, subst, true, Option, none, some, List, [], ◌∷◌, Str, str_eq, str_eq_iff,
  str_eq_refl, str_mem, str_mem-append, StrMap, lookup, lookup-insert, split_on, All, or_else,
  Bool-cases, inl, inr, arith,
}
use cnc_masm.LiveAttrs.Sql.Adhoc.{DbInfo}
use cnc_masm.LiveAttrs.Laconf.{
  Error, Result, ok, err, panic, ◌>>=◌, Conf, CorpusInfo, PatchArgs, VteConf, BibViewConf,
  SelfJoinConf, extended, add_attr, first_two, merge_attr, only_structure, with_bib_view,
  with_atom_structure, check_atom_structure, self_join_columns, with_self_join, base_conf, create,
}

-- Inversion of a successful bind.
pub >>=-eq-ok :
    {A B : Type 0} {final : B} (first : Result A) (next : A → Result B)
    → (first >>= next) ≡ ok final
    → (x : A) × (first ≡ ok x) × (next x ≡ ok final)
>>=-eq-ok panic next returned = cc
>>=-eq-ok (ok x) next returned = (x, refl, returned)
>>=-eq-ok (err e) next returned = cc

ok-inj : {A : Type 0} {a b : A} → ok a ≡ ok b → a ≡ b
ok-inj h = cc

err-ne-ok : {A : Type 0} {e : Error} {a : A} → err e ≡ ok a → ⊥
err-ne-ok h = cc

-- The attribute is among those of the structure.
abbrev pub HasAttr : StrMap (List Str) → Str → Str → Type 0
HasAttr m stru attr = str_mem attr (or_else (lookup stru m) []) ≡ true

-- The text is a structure and an attribute with a dot between them, and the attribute is there.
abbrev pub IsNamed : StrMap (List Str) → Str → Type 0
IsNamed m col =
    (stru : Str) × (attr : Str) × (split_on 46 col ≡ stru ∷ attr ∷ []) × HasAttr m stru attr

abbrev pub Extends : StrMap (List Str) → StrMap (List Str) → Type 0
Extends m m' = (stru attr : Str) → HasAttr m stru attr → HasAttr m' stru attr

extended-has : (attr : Str) (o : Option (List Str)) → str_mem attr (extended attr o) ≡ true
extended-has attr none = ground (arith, str_eq_refl attr)
extended-has attr (some attrs) = elim (Bool-cases (str_mem attr attrs)) [
  | inl old ↦ rw old old
  | inr new ↦ rw new (ground (arith, str_mem-append attr attrs (attr ∷ []), str_eq_refl attr))
]

extended-keeps :
    (attr a : Str) (o : Option (List Str))
    → str_mem a (or_else o []) ≡ true
    → str_mem a (extended attr o) ≡ true
extended-keeps attr a none h = cc
extended-keeps attr a (some attrs) h = ground (arith, h, str_mem-append a attrs (attr ∷ []))

add_attr-HasAttr :
    (stru attr : Str) (m : StrMap (List Str)) → HasAttr (add_attr stru attr m) stru attr
unfolding add_attr
add_attr-HasAttr stru attr m =
    rw (lookup-insert stru stru (extended attr (lookup stru m)) m, str_eq_refl stru)
      (extended-has attr (lookup stru m))

add_attr-Extends : (stru attr : Str) (m : StrMap (List Str)) → Extends m (add_attr stru attr m)
unfolding add_attr
add_attr-Extends stru attr m s a h = elim (Bool-cases (str_eq stru s)) [
  | inl same ↦
      let e : stru ≡ s = (str_eq_iff stru s).0 same in
      rw (lookup-insert stru s (extended attr (lookup stru m)) m, same)
        (extended-keeps attr a (lookup stru m) (rw e h))
  | inr other ↦ rw (lookup-insert stru s (extended attr (lookup stru m)) m, other) h
]

merge_attr-ok :
    (col : Str) (elms : List Str) {p : Str × Str}
    → merge_attr col elms ≡ ok p
    → elms ≡ p.0 ∷ p.1 ∷ []
merge_attr-ok col (a ∷ b ∷ []) h = cc
merge_attr-ok col [] h = cc
merge_attr-ok col (a ∷ []) h = cc
merge_attr-ok col (a ∷ b ∷ c ∷ r) h = cc

self_join_columns_lem :
    (cols : List Str) (m : StrMap (List Str)) (r : List Str × StrMap (List Str))
    → self_join_columns cols m ≡ ok r
    → Extends m r.1 × All (IsNamed r.1) cols
unfolding self_join_columns
self_join_columns_lem [] m r h =
    subst (λ m'. Extends m m' × Unit {0}) (ap (λ x. x.1) (ok-inj h)) (λ s a k. k, tt)
self_join_columns_lem (col ∷ cols) m r h =
    let (p, e1, h1) = >>=-eq-ok (merge_attr col (split_on 46 col)) _ h in
    let (rest, e2, h2) = >>=-eq-ok (self_join_columns cols (add_attr p.0 p.1 m)) _ h1 in
    let (more, named) = self_join_columns_lem cols (add_attr p.0 p.1 m) rest e2 in
    subst (λ m'. Extends m m' × (IsNamed m' col × All (IsNamed m') cols))
      (ap (λ x. x.1) (ok-inj h2))
      (
        λ s a k. more s a (add_attr-Extends p.0 p.1 m s a k),
        (
          (
            p.0,
            p.1,
            merge_attr-ok col (split_on 46 col) e1,
            more p.0 p.1 (add_attr-HasAttr p.0 p.1 m),
          ),
          named,
        ),
      )

-- What is asked of the structures of a configuration by the arguments.
abbrev pub HasBib : StrMap (List Str) → Option BibViewConf → Type 0
HasBib m none = Unit {0}
HasBib m (some v) =
    (stru : Str) × (attr : Str) × (rest : List Str) × (split_on 46 v.id_attr ≡ stru ∷ attr ∷ rest)
    × HasAttr m stru attr

abbrev pub HasSelfJoin : StrMap (List Str) → Option SelfJoinConf → Type 0
HasSelfJoin m none = Unit {0}
HasSelfJoin m (some j) = All (IsNamed m) j.arg_columns

HasBib-Extends :
    (m m' : StrMap (List Str)) (v : Option BibViewConf) → Extends m m' → HasBib m v → HasBib m' v
HasBib-Extends m m' none e h = tt
HasBib-Extends m m' (some v) e (s, a, r, q, k) = (s, a, r, q, e s a k)

first_two-ok :
    (elms : List Str) {p : Str × Str}
    → first_two elms ≡ ok p
    → (rest : List Str) × (elms ≡ p.0 ∷ p.1 ∷ rest)
first_two-ok (a ∷ b ∷ rest) h = (rest, cc)
first_two-ok (a ∷ []) h = cc
first_two-ok [] h = cc

with_bib_view_lem :
    (attrs : StrMap (List Str)) (v : Option BibViewConf) (c c' : VteConf)
    → with_bib_view attrs v c ≡ ok c'
    → Extends c.structures c'.structures × HasBib c'.structures v
unfolding with_bib_view
with_bib_view_lem attrs none c c' h =
    subst (λ x. Extends c.structures x.structures × Unit {0}) (ok-inj h) (λ s a k. k, tt)
with_bib_view_lem attrs (some v) c c' h =
    let (p, e, k) = >>=-eq-ok (first_two (split_on 46 v.id_attr)) _ h in
    let (rest, q) = first_two-ok (split_on 46 v.id_attr) e in
    subst (λ x. Extends c.structures x.structures × HasBib x.structures (some v)) (ok-inj k)
      (
        add_attr-Extends p.0 p.1 c.structures,
        (p.0, p.1, rest, q, add_attr-HasAttr p.0 p.1 c.structures),
      )

with_atom_structure-structures :
    (o : Option Str) (c c' : VteConf)
    → with_atom_structure o c ≡ ok c'
    → c.structures ≡ c'.structures
unfolding with_atom_structure
with_atom_structure-structures none c c' h =
    let (k, e, q) = >>=-eq-ok (only_structure c.structures) _ h in ap (λ x. x.structures) (ok-inj q)
with_atom_structure-structures (some s) c c' h = ap (λ x. x.structures) (ok-inj h)

check_atom_structure_lem :
    (info : CorpusInfo) (c c' : VteConf)
    → check_atom_structure info c ≡ ok c'
    → (c ≡ c') × (str_mem c.atom_structure info.indexed_structs ≡ true)
unfolding check_atom_structure
check_atom_structure_lem info c c' h =
    elim (Bool-cases (str_mem c.atom_structure info.indexed_structs)) [
      | inl there ↦ (ok-inj (rw there at h), there)
      | inr missing ↦ absurd (err-ne-ok (rw missing at h))
    ]

with_self_join_lem :
    (j : Option SelfJoinConf) (c c' : VteConf)
    → with_self_join j c ≡ ok c'
    → Extends c.structures c'.structures
      × HasSelfJoin c'.structures j
      × (c'.atom_structure ≡ c.atom_structure)
unfolding with_self_join
with_self_join_lem none c c' h =
    subst
      (λ x. Extends c.structures x.structures × Unit {0} × (x.atom_structure ≡ c.atom_structure))
      (ok-inj h) (λ s a k. k, tt, refl)
with_self_join_lem (some j) c c' h =
    let (r, e, k) = >>=-eq-ok (self_join_columns j.arg_columns c.structures) _ h in
    let (more, named) = self_join_columns_lem j.arg_columns c.structures r e in
    subst
      (λ x.
        Extends c.structures x.structures
        × All (IsNamed x.structures) j.arg_columns
        × (x.atom_structure ≡ c.atom_structure))
      (ok-inj k) (more, named, refl)

-- A configuration that Create returns has an atom structure that the corpus has, all the attributes
-- of the registry, the attribute that identifies bibliography items, and each column of the self
-- join, which is a structure and an attribute with a dot between them.
pub create-Extends :
    (path_join : List Str → Str) (conf : Conf) (info : CorpusInfo) (db_info : DbInfo)
    (args : PatchArgs) (c : VteConf)
    → create path_join conf info db_info args ≡ ok c
    → (str_mem c.atom_structure info.indexed_structs ≡ true)
      × Extends info.subcorp_attrs c.structures
      × HasBib c.structures args.bib_view
      × HasSelfJoin c.structures args.self_join
unfolding create base_conf
create-Extends path_join conf info db_info args c h =
    let base = base_conf conf info db_info args in
    let bib = with_bib_view info.subcorp_attrs args.bib_view base in
    let atom = bib >>= with_atom_structure args.atom_structure in
    let checked = atom >>= check_atom_structure info in
    let (c4, e4, q) = >>=-eq-ok (checked >>= with_self_join args.self_join) _ h in
    let (c3, e3, joins) = >>=-eq-ok checked (with_self_join args.self_join) e4 in
    let (c2, e2, checks) = >>=-eq-ok atom (check_atom_structure info) e3 in
    let (c1, e1, atoms) = >>=-eq-ok bib (with_atom_structure args.atom_structure) e2 in
    let (more1, has1) = with_bib_view_lem info.subcorp_attrs args.bib_view base c1 e1 in
    let same1 = with_atom_structure-structures args.atom_structure c1 c2 atoms in
    let (same2, there) = check_atom_structure_lem info c2 c3 checks in
    let (more2, joined, atom_kept) = with_self_join_lem args.self_join c3 c4 joins in
    let (more, has) =
      subst (λ m. Extends info.subcorp_attrs m × HasBib m args.bib_view)
        (same1 ∙ ap (λ x. x.structures) same2) (more1, has1) in
    subst
      (λ x.
        (str_mem x.atom_structure info.indexed_structs ≡ true)
        × Extends info.subcorp_attrs x.structures
        × HasBib x.structures args.bib_view
        × HasSelfJoin x.structures args.self_join)
      (ok-inj q)
      (
        rw (atom_kept ∙ ap (λ x. x.atom_structure) (sym same2)) there,
        λ s a k. more2 s a (more s a k),
        HasBib-Extends c3.structures c4.structures args.bib_view more2 has,
        joined,
      )
