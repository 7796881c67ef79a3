-- ===== src/LiveAttrs/Extraction/Crash.antt =====
-- liveattrs/actions/conf.go and main.go: what the arguments of a request make of the
-- identification of bibliography items, and what the job does with it.
use cnc_masm.Prelude.{
  ℕ, ◌≡◌, ◌≢◌, refl, sym, ap, ◌∙◌, subst, Bool, true, false, Option, none, some, List, [], ◌∷◌,
  ◌++◌, Str, all, not, ◌==◌, or_else, Bool-cases, inl, inr, arith,
}
use cnc_masm.Jobs.Info.Kinds.LiveAttrs.{JobInfoArgs}
use cnc_masm.LiveAttrs.Cache.{EmptyQueryCache, del}
use cnc_masm.Corpus.Info.{FileMappedValue}
use cnc_masm.LiveAttrs.Laconf.{
  Error, Result, ok, err, panic, ◌>>=◌, Conf, CorpusInfo, VteConf, PatchArgs, BibViewConf, is_mysql,
  create,
}
use cnc_masm.LiveAttrs.Laconf.Created.{>>=-eq-ok}
use cnc_masm.LiveAttrs.Laconf.Provider.{Files}
use cnc_masm.LiveAttrs.Laconf.Patch.{
  Env, patch_ngrams, patch_items, apply_patch_args, ensure_vertical_file, ensure_with,
  infer_vertical, find_vertical_file, check_verticals, use_found,
}
use cnc_masm.LiveAttrs.Laconf.Handlers.{Request, create_conf, wrap}
use cnc_masm.LiveAttrs.Extraction.{
  Upd, is_too_many, Job, panicked, Driver, updates, split_first, bib_id, run_job, follow, with_upd,
  job_status, update_with, update_corpus, after_updates, after_start, set_attrs,
}

ok-inj : {A : Type 0} {a b : A} → ok a ≡ ok b → a ≡ b
ok-inj h = cc

err-ne-ok : {A : Type 0} {e : Error} {a : A} → err e ≡ ok a → ⊥
err-ne-ok h = cc

wrap-ok : {A : Type 0} (m : Str) (r : Result A) {a : A} → wrap m r ≡ ok a → r ≡ ok a
wrap-ok m (ok a) h = h
wrap-ok m (err e) h = cc
wrap-ok m panic h = cc

module _ (env : Env) where
  patched-bib_view :
      (args : PatchArgs) (c c' : VteConf) (b : BibViewConf)
      → args.bib_view ≡ some b
      → apply_patch_args env args c ≡ ok c'
      → c'.bib_view ≡ b
  unfolding apply_patch_args patch_items
  patched-bib_view args c c' b e h =
      let (d, p, q) = >>=-eq-ok (patch_ngrams env args.ngrams c) _ h in
      sym (ap (λ x. x.bib_view) (ok-inj q)) ∙ ap (λ o. or_else o d.bib_view) e

  use_found-bib_view :
      (c c' : VteConf) (v : FileMappedValue) → use_found c v ≡ ok c' → c'.bib_view ≡ c.bib_view
  use_found-bib_view c c' v h = elim (Bool-cases v.file_exists) [
    | inl there ↦ sym (ap (λ x. x.bib_view) (ok-inj (rw there at h)))
    | inr missing ↦ absurd (err-ne-ok (rw missing at h))
  ]

  infer_vertical-bib_view :
      (conf : Conf) (info : CorpusInfo) (c c' : VteConf)
      → infer_vertical env conf info c ≡ ok c'
      → c'.bib_view ≡ c.bib_view
  unfolding infer_vertical
  infer_vertical-bib_view conf info c c' h = elim (Bool-cases info.vertical_exists) [
    | inl there ↦ sym (ap (λ x. x.bib_view) (ok-inj (rw there at h)))
    | inr missing ↦
        let (v, e, q) =
          >>=-eq-ok (find_vertical_file env conf.vertical_files_dir_path info.id) (use_found c)
            (rw missing at h) in
        use_found-bib_view c c' v q
  ]

  ensured-bib_view :
      (conf : Conf) (info : CorpusInfo) (c c' : VteConf) (vs : List Str)
      → ensure_with env conf info c vs ≡ ok c'
      → c'.bib_view ≡ c.bib_view
  ensured-bib_view conf info c c' [] h = infer_vertical-bib_view conf info c c' h
  ensured-bib_view conf info c c' (v ∷ vs) h =
      let (u, e, q) = >>=-eq-ok (check_verticals env (v ∷ vs)) _ h in
      sym (ap (λ x. x.bib_view) (ok-inj q))

module _ {D : Type 0} (env : Env) (f : Files D) (conf : Conf) where
  -- A configuration that createConf returns has the bibliography view of the request as it is, and
  -- not the one that laconf.Create has made of it, with the columns and the imported identifier.
  pub create_conf-bib_view :
      (r : Request) (args : PatchArgs) (b : BibViewConf) (c : VteConf)
      → args.bib_view ≡ some b
      → create_conf env f conf r args ≡ ok c
      → c.bib_view ≡ b
  unfolding create_conf ensure_vertical_file
  create_conf-bib_view r args b c e h =
      let (info, e1, h1) = >>=-eq-ok r.corpus_info _ h in
      let (db_info, e2, h2) = >>=-eq-ok r.db_info _ h1 in
      let (c1, e3, h3) = >>=-eq-ok (create env.path_join conf info db_info args) _ h2 in
      let h4 = wrap-ok _ (apply_patch_args env args c1 >>= ensure_vertical_file env conf info) h3 in
      let (c2, e5, h5) =
        >>=-eq-ok (apply_patch_args env args c1) (ensure_vertical_file env conf info) h4 in
      ensured-bib_view env conf info c2 c (env.get_defined_verticals c2) h5
      ∙ patched-bib_view env args c1 c2 b e e5

-- No letter of the text is the separator.
split_first-none :
    (sep : ℕ) (s : Str) → all (λ a. not (a == sep)) s ≡ true → split_first sep s ≡ none
unfolding split_first
split_first-none sep [] h = refl
split_first-none sep (a ∷ s) h = ground (arith, h, split_first-none sep s)

bib_id-none : (s : Str) → s ≢ [] → all (λ a. not (a == 95)) s ≡ true → bib_id s ≡ none
unfolding bib_id
bib_id-none [] ne h = absurd (ne refl)
bib_id-none (a ∷ s) ne h = split_first-none 95 (a ∷ s) h

follow_lem :
    (too_many : Str) (j : Job) (us : List Upd) (sent : List Job)
    → all (λ u. not (is_too_many u.error)) us ≡ true
    → ((follow too_many j us sent).2 ≡ true) × ((follow too_many j us sent).1.args ≡ j.args)
unfolding follow with_upd
follow_lem too_many j [] sent h = (refl, refl)
follow_lem too_many j (u ∷ us) sent h =
    let now = with_upd too_many u j in
    ground (arith, h, follow_lem too_many now us (sent ++ now ∷ []))

-- The arguments of a job that updates the corpus in MySQL, with an identification of bibliography
-- items that has no underscore.
pub record IsRaw (args : JobInfoArgs VteConf) : Type 0 where
  pub mysql : is_mysql args.vte_conf.db ≡ true
  pub updates_corpus : args.no_corpus_update ≡ false
  pub named : args.vte_conf.bib_view.id_attr ≢ []
  pub has_no_underscore : all (λ a. not (a == 95)) args.vte_conf.bib_view.id_attr ≡ true

module _ {D A : Type 0} (v : Driver D) (time : ℕ → ℕ) (table : Str) where
  after_start-panics :
      (j : Job) (sent : List Job) (qc : EmptyQueryCache A) (x : D × Option Str)
      → x.1 ≡ none
      → IsRaw j.args
      → (after_start v time table j sent qc x).end ≡ panicked
  after_start-panics j sent qc (d, none) h raw =
      ap (λ o. (set_attrs v time table j sent qc d o).end)
        (bib_id-none j.args.vte_conf.bib_view.id_attr raw.named raw.has_no_underscore)
  after_start-panics j sent qc (d, some e) h raw = cc

  update_corpus-panics :
      (initial j : Job) (sent : List Job) (qc : EmptyQueryCache A) (d : D)
      → (v.start_tx d).1 ≡ none
      → IsRaw j.args
      → (update_corpus v time table initial j sent qc d).end ≡ panicked
  unfolding update_corpus
  update_corpus-panics initial j sent qc d h raw =
      let other = update_with v time table initial j sent qc d in
      ap (λ b. (other b j.args.no_corpus_update).end) raw.mysql
      ∙ (ap (λ b. (other true b).end) raw.updates_corpus
          ∙ after_start-panics j sent qc (v.start_tx d) h raw)

  after_updates-panics :
      (initial : Job) (qc : EmptyQueryCache A) (d : D) (r : List Job × Job × Bool)
      → (v.start_tx d).1 ≡ none
      → r.2 ≡ true
      → IsRaw r.1.args
      → (after_updates v time table initial qc d r).end ≡ panicked
  after_updates-panics initial qc d (sent, j, true) h t raw =
      update_corpus-panics initial j sent (del j.corpus_id qc) d h raw
  after_updates-panics initial qc d (sent, j, false) h t raw = cc

  -- A job for MySQL whose identification of bibliography items has no underscore panics in its
  -- goroutine, once all the data are extracted and a transaction is started.
  pub run_job-panics :
      (too_many : Str) (initial : Job) (qc : EmptyQueryCache A) (d : D) (us : List Upd)
      → all (λ u. not (is_too_many u.error)) us ≡ true
      → (v.start_tx d).1 ≡ none
      → IsRaw initial.args
      → (run_job v time table too_many initial qc d (updates us)).end ≡ panicked
  unfolding run_job job_status
  run_job-panics too_many initial qc d us few h raw =
      let j = job_status (time 0) initial in
      let (goes, same) = follow_lem too_many j us [] few in
      after_updates-panics initial qc d (follow too_many j us []) h goes
        (subst IsRaw (sym same) raw)

module _ {D A B : Type 0} (env : Env) (f : Files B) (conf : Conf) (v : Driver D) (time : ℕ → ℕ)
    (table : Str) where
  -- A job for a configuration that createConf has made from a request with a bibliography
  -- identifier without an underscore, as in dot notation, panics in its goroutine, if the database is
  -- MySQL, the corpus is to be updated, the extraction ends without too many errors and a
  -- transaction is started.
  pub created_job-panics :
      (r : Request) (args : PatchArgs) (b : BibViewConf) (c : VteConf) (too_many : Str)
      (initial : Job) (qc : EmptyQueryCache A) (d : D) (us : List Upd)
      → args.bib_view ≡ some b
      → b.id_attr ≢ []
      → all (λ a. not (a == 95)) b.id_attr ≡ true
      → create_conf env f conf r args ≡ ok c
      → is_mysql c.db ≡ true
      → initial.args.vte_conf ≡ c
      → initial.args.no_corpus_update ≡ false
      → all (λ u. not (is_too_many u.error)) us ≡ true
      → (v.start_tx d).1 ≡ none
      → (run_job v time table too_many initial qc d (updates us)).end ≡ panicked
  created_job-panics r args b c too_many initial qc d us e ne no_sep made m at upd few h =
      let same : initial.args.vte_conf.bib_view ≡ b =
        ap (λ x. x.bib_view) at ∙ create_conf-bib_view env f conf r args b c e made in
      run_job-panics v time table too_many initial qc d us few h (record {
        mysql = ap (λ x. is_mysql x.db) at ∙ m;
        updates_corpus = upd;
        named = λ q. ne (sym (ap (λ x. x.id_attr) same) ∙ q);
        has_no_underscore = ap (λ x. all (λ a. not (a == 95)) x.id_attr) same ∙ no_sep;
      })
