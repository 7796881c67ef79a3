-- ===== src/LiveAttrs/Laconf/Handlers/Answers.antt =====
-- liveattrs/actions/conf.go: the answers for a missing vertical file, and what a refused patch leaves.
use cnc_masm.Prelude.{
  ℕ, ◌≡◌, refl, ap, ◌∙◌, Bool, true, false, not, ◌&&◌, Option, none, some, List, [], ◌∷◌, ◌++◌, Str,
  str, str_mem, StrMap, lookup, all, length, get_elem?, get_elem?-set, ◌==◌, Bool-cases, inl, inr,
  arith, split_on,
}
use cnc_masm.LiveAttrs.Sql.Adhoc.{DbInfo}
use cnc_masm.LiveAttrs.Laconf.{
  Error, Result, ok, err, panic, ◌>>=◌, Conf, CorpusInfo, VteConf, PatchArgs, BibViewConf,
  SelfJoinConf, create, base_conf, with_bib_view, with_atom_structure, check_atom_structure,
  with_self_join, self_join_columns, first_two, only_structure, merge_attr, add_attr,
}
use cnc_masm.LiveAttrs.Laconf.Provider.{Files, LiveAttrsBuildConfProvider, get, save, clear}
use cnc_masm.LiveAttrs.Laconf.Provider.Saved.{answer, answer-cached, get-cached}
use cnc_masm.LiveAttrs.Laconf.Patch.{Env, apply_patch_args, ensure_vertical_file}
use cnc_masm.LiveAttrs.Laconf.Handlers.{
  Response, Request, Handled, respond, error_reply, is_missing_vertical, wrap, create_conf,
  create_decoded, create_conf_action, conf_at, after_save, after_clear, store_created, allocated,
}
use cnc_masm.LiveAttrs.Laconf.Handlers.Patching.{
  patch_config, patch_found, patch_args, patch_at, applied, patch_done, ensured, written,
}

-- The error of a missing vertical file is not the result itself.
abbrev pub IsOther : {A : Type 0} → Result A → Type 0
IsOther (ok a) = Unit {0}
IsOther (err e) = is_missing_vertical e ≡ false
IsOther panic = Unit {0}

IsOther-bind :
    {A B : Type 0} (m : Result A) (f : A → Result B)
    → IsOther m
    → ((a : A) → IsOther (f a))
    → IsOther (m >>= f)
IsOther-bind (ok a) f h k = k a
IsOther-bind (err e) f h k = h
IsOther-bind panic f h k = tt

IsOther-wrap : {A : Type 0} (m : Str) (r : Result A) → IsOther (wrap m r)
IsOther-wrap m (ok a) = tt
IsOther-wrap m (err e) = refl
IsOther-wrap m panic = tt

first_two-IsOther : (elms : List Str) → IsOther (first_two elms)
first_two-IsOther (a ∷ b ∷ r) = tt
first_two-IsOther (a ∷ []) = tt
first_two-IsOther [] = tt

only_structure-IsOther : (m : StrMap (List Str)) → IsOther (only_structure m)
only_structure-IsOther [] = refl
only_structure-IsOther (s ∷ []) = tt
only_structure-IsOther (s ∷ t ∷ r) = refl

merge_attr-IsOther : (col : Str) (elms : List Str) → IsOther (merge_attr col elms)
merge_attr-IsOther col [] = refl
merge_attr-IsOther col (a ∷ []) = refl
merge_attr-IsOther col (a ∷ b ∷ []) = tt
merge_attr-IsOther col (a ∷ b ∷ c ∷ r) = refl

with_bib_view-IsOther :
    (attrs : StrMap (List Str)) (v : Option BibViewConf) (c : VteConf)
    → IsOther (with_bib_view attrs v c)
unfolding with_bib_view
with_bib_view-IsOther attrs none c = tt
with_bib_view-IsOther attrs (some v) c =
    IsOther-bind (first_two (split_on 46 v.id_attr)) _ (first_two-IsOther (split_on 46 v.id_attr))
      (λ p. tt)

with_atom_structure-IsOther : (o : Option Str) (c : VteConf) → IsOther (with_atom_structure o c)
unfolding with_atom_structure
with_atom_structure-IsOther none c =
    IsOther-bind (only_structure c.structures) _ (only_structure-IsOther c.structures) (λ k. tt)
with_atom_structure-IsOther (some s) c = tt

check_atom_structure-IsOther :
    (info : CorpusInfo) (c : VteConf) → IsOther (check_atom_structure info c)
unfolding check_atom_structure
check_atom_structure-IsOther info c =
    elim (Bool-cases (str_mem c.atom_structure info.indexed_structs)) [
      | inl there ↦ rw there tt
      | inr missing ↦ rw missing refl
    ]

self_join_columns-IsOther :
    (cols : List Str) (m : StrMap (List Str)) → IsOther (self_join_columns cols m)
unfolding self_join_columns
self_join_columns-IsOther [] m = tt
self_join_columns-IsOther (col ∷ cols) m =
    IsOther-bind (merge_attr col (split_on 46 col)) _ (merge_attr-IsOther col (split_on 46 col))
      (λ p.
        IsOther-bind (self_join_columns cols (add_attr p.0 p.1 m)) _
          (self_join_columns-IsOther cols (add_attr p.0 p.1 m)) (λ r. tt))

with_self_join-IsOther : (j : Option SelfJoinConf) (c : VteConf) → IsOther (with_self_join j c)
unfolding with_self_join
with_self_join-IsOther none c = tt
with_self_join-IsOther (some j) c =
    IsOther-bind (self_join_columns j.arg_columns c.structures) _
      (self_join_columns-IsOther j.arg_columns c.structures) (λ r. tt)

create-IsOther :
    (path_join : List Str → Str) (conf : Conf) (info : CorpusInfo) (db_info : DbInfo)
    (args : PatchArgs)
    → IsOther (create path_join conf info db_info args)
unfolding create
create-IsOther path_join conf info db_info args =
    let base = base_conf conf info db_info args in
    let bib = with_bib_view info.subcorp_attrs args.bib_view base in
    let atom = bib >>= with_atom_structure args.atom_structure in
    let checked = atom >>= check_atom_structure info in
    IsOther-bind (checked >>= with_self_join args.self_join) _
      (IsOther-bind checked (with_self_join args.self_join)
        (IsOther-bind atom (check_atom_structure info)
          (IsOther-bind bib (with_atom_structure args.atom_structure)
            (with_bib_view-IsOther info.subcorp_attrs args.bib_view base)
            (with_atom_structure-IsOther args.atom_structure))
          (check_atom_structure-IsOther info))
        (with_self_join-IsOther args.self_join))
      (λ c. tt)

module _ {D : Type 0} (env : Env) (f : Files D) (conf : Conf) where
  create_conf-IsOther :
      (r : Request) (args : PatchArgs)
      → IsOther r.corpus_info
      → IsOther r.db_info
      → IsOther (create_conf env f conf r args)
  unfolding create_conf
  create_conf-IsOther r args h k = IsOther-bind r.corpus_info _ h (λ info.
      IsOther-bind r.db_info _ k (λ db_info.
        IsOther-bind (create env.path_join conf info db_info args) _
          (create-IsOther env.path_join conf info db_info args)
          (λ c. IsOther-wrap (str "failed to create conf: ") _)))

  -- None of the answers has the status.
  abbrev pub HasNo : ℕ → Handled D → Type 0
  HasNo status (p, none) = Unit {0}
  HasNo status (p, some rs) = all (λ x. not (x.status == status)) rs ≡ true

  all-append :
      {A : Type 0} (q : A → Bool) (xs ys : List A) → all q (xs ++ ys) ≡ (all q xs && all q ys)
  all-append q [] ys = refl
  all-append q (x ∷ xs) ys = ground (arith, all-append q xs ys)

  abbrev no_conflict : Response → Bool
  no_conflict x = not (x.status == 409)

  conf_at-HasNo :
      (before : List Response) (a : ℕ) (p : LiveAttrsBuildConfProvider D)
      → all no_conflict before ≡ true
      → all no_conflict (before ++ conf_at env f conf a p) ≡ true
  conf_at-HasNo before a p h =
      ground (arith, h, all-append no_conflict before (conf_at env f conf a p))

  error-HasNo :
      (before : List Response) (e : Error)
      → all no_conflict before ≡ true
      → all no_conflict (before ++ respond 400 (error_reply e) ∷ []) ≡ true
  error-HasNo before e h =
      ground (arith, h, all-append no_conflict before (respond 400 (error_reply e) ∷ []))

  after_save-HasNo :
      (before : List Response) (a : ℕ) (x : LiveAttrsBuildConfProvider D × Result (Unit {0}))
      → all no_conflict before ≡ true
      → HasNo 409 (after_save env f conf before a x)
  after_save-HasNo before a (p, ok u) h = conf_at-HasNo before a p h
  after_save-HasNo before a (p, err e) h = error-HasNo before e h
  after_save-HasNo before a (p, panic) h = tt

  after_clear-HasNo :
      (before : List Response) (c : VteConf) (x : LiveAttrsBuildConfProvider D × Result (Unit {0}))
      → all no_conflict before ≡ true
      → HasNo 409 (after_clear env f conf before c x)
  after_clear-HasNo before c (p, ok u) h =
      after_save-HasNo before (length p.heap)
        (save env.path_join f (some (length p.heap)) (allocated env f conf c p)) h
  after_clear-HasNo before c (p, err e) h = error-HasNo before e h
  after_clear-HasNo before c (p, panic) h = tt

  store_created-HasNo :
      (before : List Response) (corpus : Str) (p : LiveAttrsBuildConfProvider D)
      (m : Result VteConf)
      → all no_conflict before ≡ true
      → IsOther m
      → HasNo 409 (store_created env f conf before corpus p m)
  store_created-HasNo before corpus p (ok c) h k =
      after_clear-HasNo before c (clear env.path_join f corpus p) h
  store_created-HasNo before corpus p (err e) h k = rw k (error-HasNo before e h)
  store_created-HasNo before corpus p panic h k = tt

  create_decoded-HasNo :
      (r : Request) (p : LiveAttrsBuildConfProvider D) (o : Result PatchArgs)
      → IsOther r.corpus_info
      → IsOther r.db_info
      → HasNo 409 (create_decoded env f conf r p o)
  create_decoded-HasNo r p (ok args) h k =
      store_created-HasNo [] r.corpus_id p (create_conf env f conf r args) refl
        (create_conf-IsOther r args h k)
  create_decoded-HasNo r p (err e) h k =
      store_created-HasNo (respond 400 (error_reply e) ∷ []) r.corpus_id p
        (create_conf env f conf r r.partial_args) refl (create_conf-IsOther r r.partial_args h k)
  create_decoded-HasNo r p panic h k = tt

  -- CreateConf never answers with Conflict, which it means to do for a missing vertical file, unless
  -- the data about the corpus cannot be had for that reason.
  pub create_conf_action-HasNo :
      (r : Request) (p : LiveAttrsBuildConfProvider D)
      → IsOther r.corpus_info
      → IsOther r.db_info
      → HasNo 409 (create_conf_action env f conf r p)
  unfolding create_conf_action
  create_conf_action-HasNo r p h k = create_decoded-HasNo r p r.json_args h k

  -- A patch that is refused since no vertical file is found has been written to the configuration in
  -- the cache all the same: Get answers with it, and the file does not have it.
  pub patch_config-refused :
      (r : Request) (p : LiveAttrsBuildConfProvider D) (a : ℕ) (c c' : VteConf) (args : PatchArgs)
      (info : CorpusInfo) (e : Error)
      → lookup r.corpus_id p.data_ ≡ some a
      → get_elem? p.heap a ≡ some c
      → r.json_args ≡ ok args
      → apply_patch_args env args c ≡ ok c'
      → r.corpus_info ≡ ok info
      → ensure_vertical_file env conf info c' ≡ err e
      → ((patch_config env f conf false r p).1 ≡ some (respond 500 (error_reply e) ∷ []))
        × ((patch_config env f conf false r p).0.disk ≡ p.disk)
        × (answer env.path_join f
              (get env.path_join f r.corpus_id (patch_config env f conf false r p).0)
            ≡ ok c')
  unfolding patch_config
  patch_config-refused r p a c c' args info e l at j ap_ok i en =
      let new = written env f conf a c' p in
      let run : patch_config env f conf false r p ≡ (new, some (respond 500 (error_reply e) ∷ [])) =
        ap (patch_found env f conf false r) (get-cached env.path_join f r.corpus_id p a l)
        ∙ ap (patch_args env f conf false r (some a) p) j
        ∙ ap (patch_at env f conf r a args p) at
        ∙ ap (applied env f conf r a p) ap_ok
        ∙ ap (patch_done env f conf a new c') i
        ∙ ap (ensured env f conf a new) en in
      (
        ap (λ x. x.1) run,
        ap (λ x. x.0.disk) run,
        ap (λ x. answer env.path_join f (get env.path_join f r.corpus_id x.0)) run
            ∙ answer-cached env.path_join f r.corpus_id new a l
                (get_elem?-set p.heap a a c' at ∙ ground arith),
      )
