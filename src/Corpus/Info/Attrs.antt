-- ===== src/Corpus/Info/Attrs.antt =====
-- corpus/corpus.go: how GetCorpusInfo reads SUBCORPATTRS.
use cnc_masm.Prelude.{
  ℕ, Bool, true, false, not, ◌&&◌, List, [], ◌∷◌, ◌++◌, map, all, Str, str_eq, StrMap, lookup,
  insert, lookup-insert, split_on, join, ◌≡◌, ◌≢◌, ◌↔◌, refl, ap, sym, ◌∙◌, ◌==◌, if◌then◌else◌,
  or_else, arith, Bool-cases, inl, inr, str_eq_iff, any,
}
use mathlib.Core.List.{append-nil, append_assoc}
use cnc_masm.Corpus.Info.{
  ok, panic, add_subcorp_attr, add_subcorp_attrs, add_subcorp_groups, parse_subcorp_attrs,
}

abbrev pub lacks : ℕ → Str → Bool
lacks sep s = all (λ a. not (a == sep)) s

split_on-lacks : (sep : ℕ) (s : Str) → lacks sep s ≡ true → split_on sep s ≡ s ∷ []
split_on-lacks sep [] h = refl
split_on-lacks sep (a ∷ s) h = ground (arith, h, split_on-lacks sep s)

split_on-cut :
    (sep : ℕ) (s t : Str) → lacks sep s ≡ true → split_on sep (s ++ sep ∷ t) ≡ s ∷ split_on sep t
split_on-cut sep [] t h = ground arith
split_on-cut sep (a ∷ s) t h = ground (arith, h, split_on-cut sep s t)

split_on-join :
    (sep : ℕ) (x : Str) (xs : List Str)
    → all (lacks sep) (x ∷ xs) ≡ true
    → split_on sep (join sep (x ∷ xs)) ≡ x ∷ xs
split_on-join sep x [] h = split_on-lacks sep x (ground (arith, h))
split_on-join sep x (y ∷ xs) h =
    split_on-cut sep x (join sep (y ∷ xs)) (ground (arith, h))
    ∙ ap (λ r. x ∷ r) (split_on-join sep y xs (ground (arith, h)))

-- An attribute as it stands in SUBCORPATTRS, and the whole text: attributes with a comma between
-- them, and groups of them with a bar.
abbrev pub write_attr : Str × Str → Str
write_attr (stru, attr) = stru ++ 46 ∷ attr

abbrev pub write_group : List (Str × Str) → Str
write_group g = join 44 (map write_attr g)

abbrev pub write_groups : List (List (Str × Str)) → Str
write_groups gs = join 124 (map write_group gs)

-- Names without a dot, a comma or a bar; a group has one or more.
abbrev pub is_plain : Str → Bool
is_plain s = lacks 46 s && (lacks 44 s && lacks 124 s)

abbrev pub is_attr : Str × Str → Bool
is_attr (stru, attr) = is_plain stru && is_plain attr

abbrev pub is_group : List (Str × Str) → Bool
is_group [] = false
is_group (p ∷ g) = all is_attr (p ∷ g)

-- The attributes of a structure, in their order.
unfoldable pub attrs_of : Str → List (Str × Str) → List Str
attrs_of st [] = []
attrs_of st ((s, a) ∷ ps) = let rest = attrs_of st ps in if str_eq s st then a ∷ rest else rest

abbrev pub flatten : {A : Type 0} → List (List A) → List A
flatten [] = []
flatten (x ∷ xs) = x ++ flatten xs

unfoldable added : List (Str × Str) → StrMap (List Str) → StrMap (List Str)
added [] m = m
added ((s, a) ∷ ps) m = added ps (insert s (or_else (lookup s m) [] ++ a ∷ []) m)

added-append :
    (xs ys : List (Str × Str)) (m : StrMap (List Str)) → added (xs ++ ys) m ≡ added ys (added xs m)
unfolding added
added-append [] ys m = refl
added-append ((s, a) ∷ xs) ys m =
    added-append xs ys (insert s (or_else (lookup s m) [] ++ a ∷ []) m)

lookup-added :
    (st : Str) (ps : List (Str × Str)) (m : StrMap (List Str))
    → or_else (lookup st (added ps m)) [] ≡ or_else (lookup st m) [] ++ attrs_of st ps
unfolding added attrs_of
lookup-added st [] m = sym (append-nil _)
lookup-added st ((s, a) ∷ ps) m =
    lookup-added st ps (insert s (or_else (lookup s m) [] ++ a ∷ []) m)
    ∙ rw (lookup-insert s st (or_else (lookup s m) [] ++ a ∷ []) m)
        (elim (Bool-cases (str_eq s st)) [
          | inl same ↦
              let e : s ≡ st = (str_eq_iff s st).0 same in
              rw (same, e) (append_assoc (or_else (lookup st m) []) (a ∷ []) (attrs_of st ps))
          | inr other ↦ rw other refl
        ])

lacks-append : (sep : ℕ) (s t : Str) → lacks sep (s ++ t) ≡ (lacks sep s && lacks sep t)
lacks-append sep [] t = refl
lacks-append sep (a ∷ s) t = ground (arith, lacks-append sep s t)

lacks-write_attr :
    (sep : ℕ) (p : Str × Str)
    → (sep == 46) ≡ false
    → lacks sep p.0 ≡ true
    → lacks sep p.1 ≡ true
    → lacks sep (write_attr p) ≡ true
lacks-write_attr sep (s, a) n h k = ground (arith, lacks-append sep s (46 ∷ a), h, k)

split_on-write_attr :
    (p : Str × Str) → is_attr p ≡ true → split_on 46 (write_attr p) ≡ p.0 ∷ p.1 ∷ []
split_on-write_attr (s, a) h =
    split_on-cut 46 s a (ground (arith, h))
    ∙ ap (λ r. s ∷ r) (split_on-lacks 46 a (ground (arith, h)))

add_subcorp_attrs-added :
    (g : List (Str × Str)) (m : StrMap (List Str))
    → all is_attr g ≡ true
    → add_subcorp_attrs (map write_attr g) m ≡ ok (added g m)
unfolding add_subcorp_attrs added add_subcorp_attr
add_subcorp_attrs-added [] m h = refl
add_subcorp_attrs-added (p ∷ g) m h = rw (split_on-write_attr p (ground (arith, h))) (
    add_subcorp_attrs-added g (insert p.0 (or_else (lookup p.0 m) [] ++ p.1 ∷ []) m)
      (ground (arith, h)))

lacks-join :
    (sep other : ℕ) (xs : List Str)
    → (sep == other) ≡ false
    → all (lacks sep) xs ≡ true
    → lacks sep (join other xs) ≡ true
lacks-join sep other [] n h = refl
lacks-join sep other (x ∷ []) n h = ground (arith, h)
lacks-join sep other (x ∷ y ∷ xs) n h =
    let rest = lacks-join sep other (y ∷ xs) n (ground (arith, h)) in
    ground (arith, lacks-append sep x (other ∷ join other (y ∷ xs)), h, n, rest)

all-map :
    {A B : Type 0} (f : A → B) (p : A → Bool) (q : B → Bool) (xs : List A)
    → ((x : A) → p x ≡ true → q (f x) ≡ true)
    → all p xs ≡ true
    → all q (map f xs) ≡ true
all-map f p q [] imp h = refl
all-map f p q (x ∷ xs) imp h = ground (arith, h, imp x, all-map f p q xs imp)

attr-lacks_bar : (p : Str × Str) → is_attr p ≡ true → lacks 124 (write_attr p) ≡ true
attr-lacks_bar (s, a) h =
    lacks-write_attr 124 (s, a) (ground arith) (ground (arith, h)) (ground (arith, h))

attr-lacks_comma : (p : Str × Str) → is_attr p ≡ true → lacks 44 (write_attr p) ≡ true
attr-lacks_comma (s, a) h =
    lacks-write_attr 44 (s, a) (ground arith) (ground (arith, h)) (ground (arith, h))

attrs-lack_commas :
    (g : List (Str × Str)) → all is_attr g ≡ true → all (lacks 44) (map write_attr g) ≡ true
attrs-lack_commas g h = all-map write_attr is_attr (lacks 44) g attr-lacks_comma h

group-lacks_bar : (g : List (Str × Str)) → is_group g ≡ true → lacks 124 (write_group g) ≡ true
group-lacks_bar (p ∷ g) h =
    lacks-join 124 44 (map write_attr (p ∷ g)) (ground arith)
      (all-map write_attr is_attr (lacks 124) (p ∷ g) attr-lacks_bar h)
group-lacks_bar [] h = cc

split_on-write_group :
    (g : List (Str × Str)) → is_group g ≡ true → split_on 44 (write_group g) ≡ map write_attr g
split_on-write_group (p ∷ g) h =
    split_on-join 44 (write_attr p) (map write_attr g) (attrs-lack_commas (p ∷ g) h)
split_on-write_group [] h = cc

attrs-of_group : (g : List (Str × Str)) → is_group g ≡ true → all is_attr g ≡ true
attrs-of_group [] h = refl
attrs-of_group (p ∷ g) h = h

add_subcorp_groups-added :
    (gs : List (List (Str × Str))) (m : StrMap (List Str))
    → all is_group gs ≡ true
    → add_subcorp_groups (map write_group gs) m ≡ ok (added (flatten gs) m)
unfolding add_subcorp_groups added
add_subcorp_groups-added [] m h = refl
add_subcorp_groups-added (g ∷ gs) m h = rw (split_on-write_group g (ground (arith, h))) (
    rw (add_subcorp_attrs-added g m (attrs-of_group g (ground (arith, h)))) (
      rw (added-append g (flatten gs) m)
        (add_subcorp_groups-added gs (added g m) (ground (arith, h)))))

parse-not_empty :
    (s : Str) → s ≢ [] → parse_subcorp_attrs s ≡ add_subcorp_groups (split_on 124 s) []
unfolding parse_subcorp_attrs
parse-not_empty [] n = absurd (n refl)
parse-not_empty (c ∷ s) n = refl

append-not_empty : (s t : Str) → s ≢ [] → (s ++ t) ≢ []
append-not_empty [] t n e = n refl
append-not_empty (c ∷ s) t n e = cc

join-not_empty : (sep : ℕ) (x : Str) (xs : List Str) → x ≢ [] → join sep (x ∷ xs) ≢ []
join-not_empty sep x [] n = n
join-not_empty sep x (y ∷ xs) n = append-not_empty x (sep ∷ join sep (y ∷ xs)) n

write_attr-not_empty : (p : Str × Str) → write_attr p ≢ []
write_attr-not_empty ([], a) e = cc
write_attr-not_empty (c ∷ s, a) e = cc

write_groups-not_empty :
    (g : List (Str × Str)) (gs : List (List (Str × Str)))
    → is_group g ≡ true
    → write_groups (g ∷ gs) ≢ []
write_groups-not_empty [] gs h = cc
write_groups-not_empty (p ∷ g) gs h =
    join-not_empty 124 (write_group (p ∷ g)) (map write_group gs)
      (join-not_empty 44 (write_attr p) (map write_attr g) (write_attr-not_empty p))

split_on-write_groups :
    (g : List (Str × Str)) (gs : List (List (Str × Str)))
    → all is_group (g ∷ gs) ≡ true
    → split_on 124 (write_groups (g ∷ gs)) ≡ map write_group (g ∷ gs)
split_on-write_groups g gs h =
    split_on-join 124 (write_group g) (map write_group gs)
      (all-map write_group is_group (lacks 124) (g ∷ gs) group-lacks_bar h)

-- From the text of one or more groups of attributes, whose names have no dot, comma or bar, the map
-- is read that has for each structure its attributes, in the order of the text.
pub parse_subcorp_attrs-write_groups :
    (g : List (Str × Str)) (gs : List (List (Str × Str)))
    → all is_group (g ∷ gs) ≡ true
    → (m : StrMap (List Str)) × (parse_subcorp_attrs (write_groups (g ∷ gs)) ≡ ok m)
      × ((st : Str) → or_else (lookup st m) [] ≡ attrs_of st (flatten (g ∷ gs)))
unfolding lookup
parse_subcorp_attrs-write_groups g gs h = (
  added (flatten (g ∷ gs)) [],
  parse-not_empty _ (write_groups-not_empty g gs (ground (arith, h)))
      ∙ rw (split_on-write_groups g gs h) (add_subcorp_groups-added (g ∷ gs) [] h),
  λ st. lookup-added st (flatten (g ∷ gs)) [],
)

-- A piece of the text that has no dot.
abbrev pub has_bare : List Str → Bool
has_bare gs = any (λ g. any (lacks 46) (split_on 44 g)) gs

split_on-cons : (sep : ℕ) (s : Str) → (x : Str) × (xs : List Str) × (split_on sep s ≡ x ∷ xs)
split_on-cons sep [] = ([], [], refl)
split_on-cons sep (a ∷ s) =
    let (x, xs, e) = split_on-cons sep s in
    elim (Bool-cases (a == sep)) [
      | inl here ↦ ([], split_on sep s, rw here refl)
      | inr other ↦ (a ∷ x, xs, rw (other, e) refl)
    ]

split_on-has :
    (sep : ℕ) (s : Str)
    → lacks sep s ≡ false
    → (x y : Str) × (xs : List Str) × (split_on sep s ≡ x ∷ y ∷ xs)
split_on-has sep [] h = cc
split_on-has sep (a ∷ s) h = elim (Bool-cases (a == sep)) [
  | inl here ↦ let (x, xs, e) = split_on-cons sep s in ([], x, xs, rw (here, e) refl)
  | inr other ↦
      let (x, y, xs, e) = split_on-has sep s (ground (arith, h, other)) in
      (a ∷ x, y, xs, rw (other, e) refl)
]

attrs-Ends :
    (ps : List Str) (m : StrMap (List Str))
    → (any (lacks 46) ps ≡ true → add_subcorp_attrs ps m ≡ panic)
      × (any (lacks 46) ps ≡ false → (m' : StrMap (List Str)) × (add_subcorp_attrs ps m ≡ ok m'))
unfolding add_subcorp_attrs add_subcorp_attr
attrs-Ends [] m = ((λ h. cc), λ h. (m, refl))
attrs-Ends (a ∷ rest) m = elim (Bool-cases (lacks 46 a)) [
  | inl bare ↦ ((λ h. rw (split_on-lacks 46 a bare) refl), λ h. absurd (ground (arith, h, bare)))
  | inr dotted ↦
      let (x, y, xs, e) = split_on-has 46 a dotted in
      let (f, t) = attrs-Ends rest (insert x (or_else (lookup x m) [] ++ y ∷ []) m) in
      ((λ h. rw e (f (ground (arith, h, dotted)))), λ h. rw e (t (ground (arith, h, dotted))))
]

groups-Ends :
    (gs : List Str) (m : StrMap (List Str))
    → (has_bare gs ≡ true → add_subcorp_groups gs m ≡ panic)
      × (has_bare gs ≡ false → (m' : StrMap (List Str)) × (add_subcorp_groups gs m ≡ ok m'))
unfolding add_subcorp_groups
groups-Ends [] m = ((λ h. cc), λ h. (m, refl))
groups-Ends (g ∷ gs) m = elim (Bool-cases (any (lacks 46) (split_on 44 g))) [
  | inl bare ↦ (
    (λ h. rw ((attrs-Ends (split_on 44 g) m).0 bare) refl),
    λ h. absurd (ground (arith, h, bare)),
  )
  | inr dotted ↦
      let (m', e) = (attrs-Ends (split_on 44 g) m).1 dotted in
      let (f, t) = groups-Ends gs m' in
      ((λ h. rw e (f (ground (arith, h, dotted)))), λ h. rw e (t (ground (arith, h, dotted))))
]

-- A text that is not empty makes the reading panic if, and only if, one of its attributes has no dot.
pub parse_subcorp_attrs-panics :
    (s : Str) → s ≢ [] → (parse_subcorp_attrs s ≡ panic) ↔ (has_bare (split_on 124 s) ≡ true)
parse_subcorp_attrs-panics s n =
    let (f, t) = groups-Ends (split_on 124 s) [] in
    let e = parse-not_empty s n in
    (
      (λ panics. elim (Bool-cases (has_bare (split_on 124 s))) [
        | inl bare ↦ bare
        | inr dotted ↦ let (m, returned) = t dotted in absurd (cc)
      ]),
      λ bare. e ∙ f bare,
    )
