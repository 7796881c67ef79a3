-- ===== src/LiveAttrs/Laconf/Handlers/Patching.antt =====
-- liveattrs/actions/conf.go: PatchConfig, and liveattrs/actions/data.go: Create up to its job.
use cnc_masm.Prelude.{
  ℕ, Bool, false, Option, none, some, List, [], ◌∷◌, str, ◌⊎◌, inl, inr, length, get_elem?, set,
  if◌then◌else◌,
}
use cnc_masm.LiveAttrs.Laconf.{
  Result, message, ok, err, panic, pos, Conf, CorpusInfo, VteConf, PatchArgs, no_ngrams,
  no_bib_view, no_self_join, no_db,
}
use cnc_masm.LiveAttrs.Laconf.Provider.{Files, LiveAttrsBuildConfProvider, get, save}
use cnc_masm.LiveAttrs.Laconf.Patch.{Env, apply_patch_args, writes, ensure_vertical_file}
use cnc_masm.LiveAttrs.Laconf.Handlers.{
  Reply, error_reply, Response, Request, Handled, respond, failing, no_error, is_no_such_config,
  is_missing_vertical, infer_args, create_conf, allocated, conf_at,
}

-- `VTEConf{}`
abbrev pub zero_conf : VteConf
zero_conf = record {
  corpus = [];
  parallel_corpus = [];
  atom_structure = [];
  atom_parent_structure = [];
  stack_struct_eval = false;
  max_num_errors = pos 0;
  vertical_file = [];
  vertical_files = [];
  ngrams = no_ngrams;
  encoding = [];
  indexed_cols = [];
  structures = [];
  bib_view = no_bib_view;
  self_join = no_self_join;
  db = no_db;
}

module _ {D : Type 0} (env : Env) (f : Files D) (conf : Conf) where
  -- A pointer with its value written.
  abbrev pub written : ℕ → VteConf → LiveAttrsBuildConfProvider D → LiveAttrsBuildConfProvider D
  written a c p = record p { heap = set p.heap a c }

  abbrev pub saved_patch : ℕ → LiveAttrsBuildConfProvider D × Result (Unit {0}) → Handled D
  saved_patch a (p, ok u) = (p, some (conf_at env f conf a p))
  saved_patch a (p, err e) = (p, some (conf_at env f conf a p))
  saved_patch a (p, panic) = (p, none)

  -- The vertical file of the configuration at `a`; the error of Save is not looked at.
  abbrev pub ensured : ℕ → LiveAttrsBuildConfProvider D → Result VteConf → Handled D
  ensured a p (ok c) = saved_patch a (save env.path_join f (some a) (written a c p))
  ensured a p (err e) = failing p 500 e
  ensured a p panic = (p, none)

  abbrev pub patch_done : ℕ → LiveAttrsBuildConfProvider D → VteConf → Result CorpusInfo → Handled D
  patch_done a p c (ok info) = ensured a p (ensure_vertical_file env conf info c)
  patch_done a p c (err e) = failing p 500 e
  patch_done a p c panic = (p, none)

  abbrev pub applied : Request → ℕ → LiveAttrsBuildConfProvider D → Result VteConf → Handled D
  applied r a p (ok c) = patch_done a (written a c p) c r.corpus_info
  applied r a p (err e) = failing p 400 e
  applied r a p panic = (p, none)

  -- The arguments applied to the configuration in the cache.
  abbrev pub patch_at :
      Request → ℕ → PatchArgs → LiveAttrsBuildConfProvider D → Option VteConf → Handled D
  patch_at r a args p none = (p, none)
  patch_at r a args p (some c) = applied r a p (apply_patch_args env args c)

  -- The arguments applied to a nil pointer: a panic, unless an error comes before the first use of it.
  -- The errors of `applyPatchArgs` do not depend on its target.
  abbrev pub patch_nil : Request → PatchArgs → LiveAttrsBuildConfProvider D → Handled D
  patch_nil r args p = elim (apply_patch_args env args zero_conf) [
    | err e ↦ failing p 400 e
    | ok c ↦ if writes env args then (p, none) else elim r.corpus_info [
      | ok info ↦ (p, none)
      | err e ↦ failing p 500 e
      | panic ↦ (p, none)
    ]
    | panic ↦ (p, none)
  ]

  abbrev pub patch_to : Request → Option ℕ → LiveAttrsBuildConfProvider D → PatchArgs → Handled D
  patch_to r none p args = patch_nil r args p
  patch_to r (some a) p args = patch_at r a args p (get_elem? p.heap a)

  abbrev pub inferred :
      Request → Option ℕ → LiveAttrsBuildConfProvider D → Result (Option PatchArgs) → Handled D
  inferred r target p (ok (some args)) = patch_to r target p args
  inferred r target p (ok none) = (p, some (respond 500 no_error ∷ []))
  inferred r target p (err e) = failing p 500 e
  inferred r target p panic = (p, none)

  abbrev pub patch_args :
      Bool → Request → Option ℕ → LiveAttrsBuildConfProvider D → Result PatchArgs → Handled D
  patch_args infer r target p (ok args) =
      if infer then inferred r target p (infer_args r args) else patch_to r target p args
  patch_args infer r target p (err e) = failing p 400 e
  patch_args infer r target p panic = (p, none)

  abbrev pub patch_found : Bool → Request → LiveAttrsBuildConfProvider D × Result ℕ → Handled D
  patch_found infer r (p, ok a) = patch_args infer r (some a) p r.json_args
  patch_found infer r (p, err e) =
      if is_no_such_config e
      then failing p 404 (message (str "no such config"))
      else patch_args infer r none p r.json_args
  patch_found infer r (p, panic) = (p, none)

  -- `PatchConfig`; of the errors of Get it looks at one only.
  unfoldable pub patch_config : Bool → Request → LiveAttrsBuildConfProvider D → Handled D
  unfolding get save apply_patch_args ensure_vertical_file writes infer_args
  patch_config infer r p = patch_found infer r (get env.path_join f r.corpus_id p)

  -- An answer, or the configuration with which the job is made.
  abbrev pub Started : Type 0
  Started = LiveAttrsBuildConfProvider D × Option (List Response ⊎ VteConf)

  abbrev pub refused : LiveAttrsBuildConfProvider D → ℕ → Reply → Started
  refused p status b = (p, some (inl (respond status b ∷ [])))

  -- A copy of the configuration; an error of `applyPatchArgs` is not looked at.
  abbrev pub runtime_conf : PatchArgs → VteConf → VteConf
  runtime_conf args c = elim (apply_patch_args env args c) [ ok c' ↦ c' | err e ↦ c | panic ↦ c ]

  abbrev pub run_with : PatchArgs → LiveAttrsBuildConfProvider D → ℕ → Started
  run_with args p a = elim (get_elem? p.heap a) [
    | none ↦ (p, none)
    | some c ↦
        if env.has_configured_vertical (runtime_conf args c)
        then (p, some (inr (runtime_conf args c)))
        else refused p 409 no_error
  ]

  abbrev pub got_created : PatchArgs → LiveAttrsBuildConfProvider D × Result ℕ → Started
  got_created args (p, ok a) = run_with args p a
  got_created args (p, err e) = refused p 400 (error_reply e)
  got_created args (p, panic) = (p, none)

  abbrev pub saved_created :
      Request → PatchArgs → LiveAttrsBuildConfProvider D × Result (Unit {0}) → Started
  saved_created r args (p, ok u) = got_created args (get env.path_join f r.corpus_id p)
  saved_created r args (p, err e) = refused p 400 (error_reply e)
  saved_created r args (p, panic) = (p, none)

  -- Where `createConf` answers with the error for a missing vertical file, its configuration is nil.
  abbrev pub make_conf :
      Request → PatchArgs → LiveAttrsBuildConfProvider D → Result VteConf → Started
  make_conf r args p (ok c) =
      saved_created r args (save env.path_join f (some (length p.heap)) (allocated env f conf c p))
  make_conf r args p (err e) =
      if is_missing_vertical e then (p, none) else refused p 400 (error_reply e)
  make_conf r args p panic = (p, none)

  abbrev pub create_with :
      Request → LiveAttrsBuildConfProvider D → Option ℕ → Result PatchArgs → Started
  create_with r p target (err e) = refused p 400 (error_reply e)
  create_with r p target panic = (p, none)
  create_with r p none (ok args) = make_conf r args p (create_conf env f conf r args)
  create_with r p (some a) (ok args) = run_with args p a

  abbrev pub create_found : Request → LiveAttrsBuildConfProvider D × Result ℕ → Started
  create_found r (p, ok a) = create_with r p (some a) r.json_args
  create_found r (p, err e) = create_with r p none r.json_args
  create_found r (p, panic) = (p, none)

  -- `Create` up to the search for an unfinished job.
  unfoldable pub create_action : Bool → Request → LiveAttrsBuildConfProvider D → Started
  unfolding get save apply_patch_args create_conf
  create_action reconfigure r p =
      if reconfigure
      then create_with r p none r.json_args
      else create_found r (get env.path_join f r.corpus_id p)
