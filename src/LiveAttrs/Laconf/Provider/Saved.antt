-- ===== src/LiveAttrs/Laconf/Provider/Saved.antt =====
-- liveattrs/laconf/provider.go: a saved configuration and the pointers of the cache.
use cnc_masm.Prelude.{
  ℕ, ◌≡◌, sym, ap, ◌∙◌, true, Option, none, some, List, Str, str_eq_refl, lookup, insert,
  lookup-insert, lookup-delete, length, get_elem?, set, get_elem?-append_end, get_elem?-set,
  if◌then◌else◌, Bool-cases, inl, inr, arith,
}
use cnc_masm.Corpus.ConcCache.{is_file}
use cnc_masm.LiveAttrs.Laconf.{Result, ok, VteConf, is_mysql}
use cnc_masm.LiveAttrs.Laconf.Provider.{
  Files, LiveAttrsBuildConfProvider, with_global_db, uncache, conf_path, loaded, load_as,
  load_from_file, get_as, get, saved, save_at, save, deref, read_at,
}

-- What is documented of files: what was written without an error is a file that can be read.
pub record Keeps {D : Type 0} (f : Files D) : Type 0 where
  pub is_written :
      (path : Str) (c : VteConf) (d : D)
      → (f.write_file path c d).1 ≡ none
      → f.status path (f.write_file path c d).0 ≡ is_file
  pub reads :
      (path : Str) (c : VteConf) (d : D)
      → (f.write_file path c d).1 ≡ none
      → f.load_conf path (f.write_file path c d).0 ≡ ok c

module _ {D : Type 0} (path_join : List Str → Str) (f : Files D) where
  -- A Save without an error, and its state.
  abbrev pub saved_state : ℕ → VteConf → LiveAttrsBuildConfProvider D → LiveAttrsBuildConfProvider D
  saved_state a c p = record p {
    disk = (f.write_file (conf_path path_join f c.corpus p) c p.disk).0;
    data_ = insert c.corpus a p.data_;
    heap = if is_mysql c.db then set p.heap a (record c { db = p.global_db_conf }) else p.heap;
  }

  saved-none :
      (a : ℕ) (c : VteConf) (p : LiveAttrsBuildConfProvider D) (w : D × Option Str)
      → w.1 ≡ none
      → saved path_join f a c p w ≡ (
        record p {
          disk = w.0;
          data_ = insert c.corpus a p.data_;
          heap =
              if is_mysql c.db then set p.heap a (record c { db = p.global_db_conf }) else p.heap;
        },
        ok tt,
      )
  saved-none a c p (d, o) h = ap (λ x. saved path_join f a c p (d, x)) h

  save-saved_state :
      (a : ℕ) (c : VteConf) (p : LiveAttrsBuildConfProvider D)
      → get_elem? p.heap a ≡ some c
      → (f.write_file (conf_path path_join f c.corpus p) c p.disk).1 ≡ none
      → save path_join f (some a) p ≡ (saved_state a c p, ok tt)
  unfolding save
  save-saved_state a c p at w =
      ap (save_at path_join f a p) at
      ∙ saved-none a c p (f.write_file (conf_path path_join f c.corpus p) c p.disk) w

  -- What a configuration is once its database is that of the provider.
  set_global-lem :
      (a : ℕ) (c : VteConf) (p : LiveAttrsBuildConfProvider D)
      → get_elem? p.heap a ≡ some c
      → is_mysql c.db ≡ is_mysql p.global_db_conf
      → get_elem? (saved_state a c p).heap a ≡ some (with_global_db p.global_db_conf c)
  unfolding with_global_db
  set_global-lem a c p at same = elim (Bool-cases (is_mysql c.db)) [
    | inl m ↦
        rw (m, sym same ∙ m)
          (get_elem?-set p.heap a a (record c { db = p.global_db_conf }) at ∙ ground arith)
    | inr o ↦ rw (o, sym same ∙ o) at
  ]

  pub get-cached :
      (corpus : Str) (p : LiveAttrsBuildConfProvider D) (a : ℕ)
      → lookup corpus p.data_ ≡ some a
      → get path_join f corpus p ≡ (p, ok a)
  unfolding get
  get-cached corpus p a h = ap (get_as path_join f corpus p) h

  get-read :
      (corpus : Str) (p : LiveAttrsBuildConfProvider D) (v : VteConf)
      → lookup corpus p.data_ ≡ none
      → f.status (conf_path path_join f corpus p) p.disk ≡ is_file
      → f.load_conf (conf_path path_join f corpus p) p.disk ≡ ok v
      → get path_join f corpus p ≡ loaded path_join f corpus true p (ok v)
  unfolding get load_from_file
  get-read corpus p v h k l =
      ap (get_as path_join f corpus p) h
      ∙ (ap (load_as path_join f corpus true p) k ∙ ap (loaded path_join f corpus true p) l)

  abbrev pub answer : LiveAttrsBuildConfProvider D × Result ℕ → Result VteConf
  answer r = (read_at path_join f r).1

  answer-found :
      (p : LiveAttrsBuildConfProvider D) (a : ℕ) {c : VteConf}
      → get_elem? p.heap a ≡ some c
      → answer (p, ok a) ≡ ok c
  answer-found p a h = ap deref h

  pub answer-cached :
      (corpus : Str) (p : LiveAttrsBuildConfProvider D) (a : ℕ) {c : VteConf}
      → lookup corpus p.data_ ≡ some a
      → get_elem? p.heap a ≡ some c
      → answer (get path_join f corpus p) ≡ ok c
  answer-cached corpus p a l h = ap answer (get-cached corpus p a l) ∙ answer-found p a h

  answer-read :
      (corpus : Str) (p : LiveAttrsBuildConfProvider D) (v : VteConf)
      → lookup corpus p.data_ ≡ none
      → f.status (conf_path path_join f corpus p) p.disk ≡ is_file
      → f.load_conf (conf_path path_join f corpus p) p.disk ≡ ok v
      → answer (get path_join f corpus p) ≡ ok (with_global_db p.global_db_conf v)
  answer-read corpus p v l s r =
      ap answer (get-read corpus p v l s r)
      ∙ answer-found (loaded path_join f corpus true p (ok v)).0 (length p.heap)
          (get_elem?-append_end p.heap (with_global_db p.global_db_conf v))

  -- After a Save without an error of a configuration whose database is of the provider's kind, Get
  -- answers with that configuration and the provider's database, whether it finds it in the cache or,
  -- after Uncache, reads it from its file.
  pub get-save :
      (k : Keeps f) (a : ℕ) (c : VteConf) (p : LiveAttrsBuildConfProvider D)
      → get_elem? p.heap a ≡ some c
      → (f.write_file (conf_path path_join f c.corpus p) c p.disk).1 ≡ none
      → is_mysql c.db ≡ is_mysql p.global_db_conf
      → (answer (get path_join f c.corpus (save path_join f (some a) p).0)
          ≡ ok (with_global_db p.global_db_conf c))
        × (answer (get path_join f c.corpus (uncache c.corpus (save path_join f (some a) p).0).0)
            ≡ ok (with_global_db p.global_db_conf c))
  unfolding uncache
  get-save k a c p at w same =
      let new = saved_state a c p in
      let e : (save path_join f (some a) p).0 ≡ new = ap (λ r. r.0) (save-saved_state a c p at w) in
      let path = conf_path path_join f c.corpus p in
      (
        ap (λ s. answer (get path_join f c.corpus s)) e
            ∙ answer-cached c.corpus new a
                (rw (lookup-insert c.corpus c.corpus a p.data_, str_eq_refl c.corpus))
                (set_global-lem a c p at same),
        ap (λ s. answer (get path_join f c.corpus (uncache c.corpus s).0)) e
            ∙ answer-read c.corpus (uncache c.corpus new).0 c
                (rw (lookup-delete c.corpus c.corpus new.data_, str_eq_refl c.corpus))
                (k.is_written path c p.disk w) (k.reads path c p.disk w),
      )
