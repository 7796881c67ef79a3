-- ===== src/LiveAttrs/Laconf/Provider/Global.antt =====
-- liveattrs/laconf/provider.go: the database of the configurations in the cache.
use cnc_masm.Prelude.{
  ℕ, ◌≡◌, refl, sym, ap, ◌∙◌, subst, Bool, true, false, Option, none, some, List, [], ◌∷◌, ◌++◌,
  Str, str_eq, StrMap, lookup, insert, delete, lookup-insert, lookup-delete, length, get_elem?, set,
  get_elem?-append_end, get_elem?-append, get_elem?-set, All, if◌then◌else◌, ◌==◌, Bool-cases, inl,
  inr, arith,
}
use cnc_masm.Corpus.ConcCache.{FileStatus, is_file, no_file, unknown}
use cnc_masm.LiveAttrs.Laconf.{Result, ok, err, panic, DbConf, VteConf, is_mysql}
use cnc_masm.LiveAttrs.Laconf.Provider.{
  Files, LiveAttrsBuildConfProvider, with_global_db, conf_path, loaded, load_as, load_from_file,
  get_as, get, saved, save_at, save, removed, clear_as, clear, new_live_attrs_build_conf_provider,
  Op, op_get, op_get_uncached, op_uncache, op_clear, op_save, exec, run_ops,
}

-- The address holds a configuration, with the database given, if that is for MySQL.
abbrev pub HoldsGlobal : DbConf → List VteConf → ℕ → Type 0
HoldsGlobal db heap a =
    (c : VteConf) × (get_elem? heap a ≡ some c) × (is_mysql db ≡ true → c.db ≡ db)

-- Every pointer of the cache points to such a configuration.
pub record IsGlobal {D : Type 0} (db : DbConf) (p : LiveAttrsBuildConfProvider D) : Type 0 where
  pub global : p.global_db_conf ≡ db
  pub cached : (k : Str) (a : ℕ) → lookup k p.data_ ≡ some a → HoldsGlobal db p.heap a

none-ne-some : {A : Type 0} {a : A} → none ≡ some a → ⊥
none-ne-some h = cc

-- A configuration to save has a database of the kind.
abbrev pub IsFit : DbConf → Op → Type 0
IsFit db (op_save c) = is_mysql c.db ≡ is_mysql db
IsFit db (op_get corpus) = Unit {0}
IsFit db (op_get_uncached corpus) = Unit {0}
IsFit db (op_uncache corpus) = Unit {0}
IsFit db (op_clear corpus) = Unit {0}

HoldsGlobal-append :
    (db : DbConf) (heap more : List VteConf) (a : ℕ)
    → HoldsGlobal db heap a
    → HoldsGlobal db (heap ++ more) a
HoldsGlobal-append db heap more a (c, at, g) = (c, get_elem?-append heap more a at, g)

with_global_db-db : (db : DbConf) (v : VteConf) → is_mysql db ≡ true → (with_global_db db v).db ≡ db
unfolding with_global_db
with_global_db-db db v h = rw h refl

-- A new entry of the cache.
insert-HoldsGlobal :
    (db : DbConf) (heap : List VteConf) (corpus : Str) (new : ℕ) (m : StrMap ℕ)
    → HoldsGlobal db heap new
    → ((k : Str) (a : ℕ) → lookup k m ≡ some a → HoldsGlobal db heap a)
    → (k : Str) (a : ℕ) → lookup k (insert corpus new m) ≡ some a
    → HoldsGlobal db heap a
insert-HoldsGlobal db heap corpus new m n h k a l = elim (Bool-cases (str_eq corpus k)) [
  | inl same ↦ subst (HoldsGlobal db heap) (ground (arith, same, l, lookup-insert corpus k new m)) n
  | inr other ↦ h k a (ground (arith, other, l, lookup-insert corpus k new m))
]

delete-IsGlobal :
    {D : Type 0} (db : DbConf) (corpus : Str) (p : LiveAttrsBuildConfProvider D)
    → IsGlobal db p
    → IsGlobal db (record p { data_ = delete corpus p.data_ })
delete-IsGlobal db corpus p h = record {
  global = h.global;
  cached = λ k a l. h.cached k a (ground (arith, l, lookup-delete corpus k p.data_));
}

module _ {D : Type 0} (path_join : List Str → Str) (f : Files D) (db : DbConf) where
  loaded-IsGlobal :
      (corpus : Str) (store : Bool) (p : LiveAttrsBuildConfProvider D) (r : Result VteConf)
      → IsGlobal db p
      → IsGlobal db (loaded path_join f corpus store p r).0
  loaded-IsGlobal corpus true p (ok v) h =
      let new = with_global_db p.global_db_conf v in
      record {
        global = h.global;
        cached =
            insert-HoldsGlobal db (p.heap ++ new ∷ []) corpus (length p.heap) p.data_
              (
                new,
                get_elem?-append_end p.heap new,
                λ m. with_global_db-db p.global_db_conf v (ap is_mysql h.global ∙ m) ∙ h.global,
              )
              (λ k a l. HoldsGlobal-append db p.heap (new ∷ []) a (h.cached k a l));
      }
  loaded-IsGlobal corpus false p (ok v) h = record {
    global = h.global;
    cached = λ k a l. HoldsGlobal-append db p.heap _ a (h.cached k a l);
  }
  loaded-IsGlobal corpus store p (err e) h = h
  loaded-IsGlobal corpus store p panic h = h

  load_as-IsGlobal :
      (corpus : Str) (store : Bool) (p : LiveAttrsBuildConfProvider D) (s : FileStatus)
      → IsGlobal db p
      → IsGlobal db (load_as path_join f corpus store p s).0
  load_as-IsGlobal corpus store p is_file h = loaded-IsGlobal corpus store p _ h
  load_as-IsGlobal corpus store p no_file h = h
  load_as-IsGlobal corpus store p (unknown e) h = h

  get_as-IsGlobal :
      (corpus : Str) (p : LiveAttrsBuildConfProvider D) (o : Option ℕ)
      → IsGlobal db p
      → IsGlobal db (get_as path_join f corpus p o).0
  unfolding load_from_file
  get_as-IsGlobal corpus p none h = load_as-IsGlobal corpus true p _ h
  get_as-IsGlobal corpus p (some a) h = h

  removed-IsGlobal :
      (p : LiveAttrsBuildConfProvider D) (x : D × Option Str)
      → IsGlobal db p
      → IsGlobal db (removed path_join f p x).0
  removed-IsGlobal p (d, none) h = record { global = h.global; cached = h.cached }
  removed-IsGlobal p (d, some e) h = record { global = h.global; cached = h.cached }

  clear_as-IsGlobal :
      (corpus : Str) (p : LiveAttrsBuildConfProvider D) (s : FileStatus)
      → IsGlobal db p
      → IsGlobal db (clear_as path_join f corpus p s).0
  clear_as-IsGlobal corpus p is_file h = removed-IsGlobal p _ h
  clear_as-IsGlobal corpus p no_file h = h
  clear_as-IsGlobal corpus p (unknown e) h = h

  set-HoldsGlobal :
      (heap : List VteConf) (a b : ℕ) (c v : VteConf)
      → v.db ≡ db
      → get_elem? heap a ≡ some c
      → HoldsGlobal db heap b
      → HoldsGlobal db (set heap a v) b
  set-HoldsGlobal heap a b c v g at (w, found, k) = (
    if a == b then v else w,
    get_elem?-set heap a b v found ∙ ground (arith, found),
    λ m. ground (arith, g, k m),
  )

  -- Saving a configuration whose database is of the provider's kind.
  saved-IsGlobal :
      (a : ℕ) (c : VteConf) (p : LiveAttrsBuildConfProvider D) (x : D × Option Str)
      → get_elem? p.heap a ≡ some c
      → is_mysql c.db ≡ is_mysql db
      → IsGlobal db p
      → IsGlobal db (saved path_join f a c p x).0
  saved-IsGlobal a c p (d, some e) at same h = record { global = h.global; cached = h.cached }
  saved-IsGlobal a c p (d, none) at same h = elim (Bool-cases (is_mysql c.db)) [
    | inl m ↦
        let new = record c { db = p.global_db_conf } in
        rw m (record {
          global = h.global;
          cached =
              insert-HoldsGlobal db (set p.heap a new) c.corpus a p.data_
                (new, get_elem?-set p.heap a a new at ∙ ground arith, λ m'. h.global)
                (λ k b l. set-HoldsGlobal p.heap a b c new h.global at (h.cached k b l));
        })
    | inr o ↦ rw o (record {
      global = h.global;
      cached =
          insert-HoldsGlobal db p.heap c.corpus a p.data_ (c, at, λ m. ground (arith, same, o, m))
            h.cached;
    })
  ]

  appended-IsGlobal :
      (c : VteConf) (p : LiveAttrsBuildConfProvider D)
      → IsGlobal db p
      → IsGlobal db (record p { heap = p.heap ++ c ∷ [] })
  appended-IsGlobal c p h = record {
    global = h.global;
    cached = λ k a l. HoldsGlobal-append db p.heap (c ∷ []) a (h.cached k a l);
  }

  exec-IsGlobal :
      (op : Op) (p : LiveAttrsBuildConfProvider D)
      → IsFit db op
      → IsGlobal db p
      → IsGlobal db (exec path_join f op p)
  unfolding exec get load_from_file clear save
  exec-IsGlobal (op_get corpus) p fit h = get_as-IsGlobal corpus p (lookup corpus p.data_) h
  exec-IsGlobal (op_get_uncached corpus) p fit h = load_as-IsGlobal corpus false p _ h
  exec-IsGlobal (op_uncache corpus) p fit h = delete-IsGlobal db corpus p h
  exec-IsGlobal (op_clear corpus) p fit h =
      clear_as-IsGlobal corpus (record p { data_ = delete corpus p.data_ }) _
        (delete-IsGlobal db corpus p h)
  exec-IsGlobal (op_save c) p fit h =
      let q = record p { heap = p.heap ++ c ∷ [] } in
      let a = length p.heap in
      let at = get_elem?-append_end p.heap c in
      subst (λ o. IsGlobal db (save_at path_join f a q o).0) (sym at)
        (saved-IsGlobal a c q (f.write_file (conf_path path_join f c.corpus q) c q.disk) at fit
          (appended-IsGlobal c p h))

  run_ops-IsGlobal :
      (ops : List Op) (p : LiveAttrsBuildConfProvider D)
      → All (IsFit db) ops
      → IsGlobal db p
      → IsGlobal db (run_ops path_join f ops p)
  unfolding run_ops
  run_ops-IsGlobal [] p fits h = h
  run_ops-IsGlobal (op ∷ ops) p (fit, fits) h =
      run_ops-IsGlobal ops (exec path_join f op p) fits (exec-IsGlobal op p fit h)

  -- After any calls of Get, Uncache, Clear and Save, in any order, where each configuration that is
  -- saved has a database of the provider's kind, every pointer of the cache points to a
  -- configuration, which has the provider's database if that is for MySQL.
  pub run_ops-new_provider :
      (dir : Str) (d : D) (ops : List Op)
      → All (IsFit db) ops
      → IsGlobal db (run_ops path_join f ops (new_live_attrs_build_conf_provider dir db d))
  unfolding new_live_attrs_build_conf_provider lookup
  run_ops-new_provider dir d ops fits =
      run_ops-IsGlobal ops (new_live_attrs_build_conf_provider dir db d) fits
        (record { global = refl; cached = λ k a l. absurd (none-ne-some l) })
