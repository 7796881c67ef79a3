-- ===== src/LiveAttrs/Laconf/Provider.antt =====
-- liveattrs/laconf/provider.go: the provider of configurations, a cache of pointers over files. The
-- file system is a parameter.
pub mod Saved
pub mod Global
use cnc_masm.Prelude.{
  ℕ, Bool, true, false, Option, none, some, List, [], ◌∷◌, ◌++◌, Str, str, StrMap, lookup, insert,
  delete, has_key, length, get_elem?, set, if◌then◌else◌,
}
use cnc_masm.Corpus.ConcCache.{FileStatus, is_file, no_file, unknown}
use cnc_masm.LiveAttrs.Laconf.{
  Error, Result, no_such_config, message, ok, err, panic, DbConf, VteConf, is_mysql,
}

-- `fs.IsFile`, `LoadConf`, `os.WriteFile` of the configuration in JSON, `os.Remove`
pub record Files (D : Type 0) : Type 0 where
  pub status : Str → D → FileStatus
  pub load_conf : Str → D → Result VteConf
  pub write_file : Str → VteConf → D → D × Option Str
  pub remove : Str → D → D × Option Str

-- `data_` has pointers to the configurations in `heap`.
pub record LiveAttrsBuildConfProvider (D : Type 0) : Type 0 where
  pub conf_dir_path : Str
  pub global_db_conf : DbConf
  pub data_ : StrMap ℕ
  pub heap : List VteConf
  pub disk : D

unfoldable pub new_live_attrs_build_conf_provider :
    {D : Type 0} → Str → DbConf → D → LiveAttrsBuildConfProvider D
new_live_attrs_build_conf_provider dir db d = record {
  conf_dir_path = dir;
  global_db_conf = db;
  data_ = [];
  heap = [];
  disk = d;
}

-- `v.DB = *lcache.globalDBConf`, if that is for MySQL.
unfoldable pub with_global_db : DbConf → VteConf → VteConf
with_global_db db v = if is_mysql db then record v { db = db } else v

unfoldable pub uncache :
    {D : Type 0} → Str → LiveAttrsBuildConfProvider D → LiveAttrsBuildConfProvider D × Bool
uncache corpus p = (record p { data_ = delete corpus p.data_ }, has_key corpus p.data_)

-- The value of a pointer.
abbrev pub deref : Option VteConf → Result VteConf
deref none = panic
deref (some c) = ok c

-- `path_join` is `path.Join`.
module _ {D : Type 0} (path_join : List Str → Str) (f : Files D) where
  abbrev pub conf_path : Str → LiveAttrsBuildConfProvider D → Str
  conf_path corpus p = path_join (p.conf_dir_path ∷ (corpus ++ str ".json") ∷ [])

  abbrev pub loaded :
      Str
      → Bool
      → LiveAttrsBuildConfProvider D
      → Result VteConf
      → LiveAttrsBuildConfProvider D × Result ℕ
  loaded corpus store p (ok v) = (
    record p {
      heap = p.heap ++ with_global_db p.global_db_conf v ∷ [];
      data_ = if store then insert corpus (length p.heap) p.data_ else p.data_;
    },
    ok (length p.heap),
  )
  loaded corpus store p (err e) = (p, err e)
  loaded corpus store p panic = (p, panic)

  abbrev pub load_as :
      Str
      → Bool
      → LiveAttrsBuildConfProvider D
      → FileStatus
      → LiveAttrsBuildConfProvider D × Result ℕ
  load_as corpus store p is_file = loaded corpus store p (f.load_conf (conf_path corpus p) p.disk)
  load_as corpus store p no_file = (p, err no_such_config)
  load_as corpus store p (unknown e) = (p, err (message e))

  -- A pointer to the configuration that was read.
  unfoldable pub load_from_file :
      Str → Bool → LiveAttrsBuildConfProvider D → LiveAttrsBuildConfProvider D × Result ℕ
  unfolding with_global_db
  load_from_file corpus store p = load_as corpus store p (f.status (conf_path corpus p) p.disk)

  abbrev pub get_as :
      Str → LiveAttrsBuildConfProvider D → Option ℕ → LiveAttrsBuildConfProvider D × Result ℕ
  get_as corpus p (some a) = (p, ok a)
  get_as corpus p none = load_from_file corpus true p

  unfoldable pub get : Str → LiveAttrsBuildConfProvider D → LiveAttrsBuildConfProvider D × Result ℕ
  unfolding load_from_file
  get corpus p = get_as corpus p (lookup corpus p.data_)

  abbrev pub read_at :
      LiveAttrsBuildConfProvider D × Result ℕ → LiveAttrsBuildConfProvider D × Result VteConf
  read_at (p, ok a) = (p, deref (get_elem? p.heap a))
  read_at (p, err e) = (p, err e)
  read_at (p, panic) = (p, panic)

  abbrev pub map_conf :
      (VteConf → VteConf)
      → LiveAttrsBuildConfProvider D × Result VteConf
      → LiveAttrsBuildConfProvider D × Result VteConf
  map_conf g (p, ok c) = (p, ok (g c))
  map_conf g (p, err e) = (p, err e)
  map_conf g (p, panic) = (p, panic)

  -- `without_passwords` is `VTEConf.WithoutPasswords`.
  unfoldable pub get_without_passwords :
      (VteConf → VteConf)
      → Str
      → LiveAttrsBuildConfProvider D
      → LiveAttrsBuildConfProvider D × Result VteConf
  unfolding get
  get_without_passwords without_passwords corpus p =
      map_conf without_passwords (read_at (get corpus p))

  unfoldable pub get_uncached_without_passwords :
      (VteConf → VteConf)
      → Str
      → LiveAttrsBuildConfProvider D
      → LiveAttrsBuildConfProvider D × Result VteConf
  unfolding load_from_file
  get_uncached_without_passwords without_passwords corpus p =
      map_conf without_passwords (read_at (load_from_file corpus false p))

  abbrev pub saved :
      ℕ
      → VteConf
      → LiveAttrsBuildConfProvider D
      → D × Option Str
      → LiveAttrsBuildConfProvider D × Result (Unit {0})
  saved a c p (d, some e) = (record p { disk = d }, err (message e))
  saved a c p (d, none) = (
    record p {
      disk = d;
      data_ = insert c.corpus a p.data_;
      heap = if is_mysql c.db then set p.heap a (record c { db = p.global_db_conf }) else p.heap;
    },
    ok tt,
  )

  abbrev pub save_at :
      ℕ
      → LiveAttrsBuildConfProvider D
      → Option VteConf
      → LiveAttrsBuildConfProvider D × Result (Unit {0})
  save_at a p none = (p, panic)
  save_at a p (some c) = saved a c p (f.write_file (conf_path c.corpus p) c p.disk)

  -- `Save` of a pointer; nil and an address that is not there are a panic.
  unfoldable pub save :
      Option ℕ → LiveAttrsBuildConfProvider D → LiveAttrsBuildConfProvider D × Result (Unit {0})
  save none p = (p, panic)
  save (some a) p = save_at a p (get_elem? p.heap a)

  abbrev pub removed :
      LiveAttrsBuildConfProvider D
      → D × Option Str
      → LiveAttrsBuildConfProvider D × Result (Unit {0})
  removed p (d, none) = (record p { disk = d }, ok tt)
  removed p (d, some e) = (record p { disk = d }, err (message e))

  abbrev pub clear_as :
      Str
      → LiveAttrsBuildConfProvider D
      → FileStatus
      → LiveAttrsBuildConfProvider D × Result (Unit {0})
  clear_as corpus p is_file = removed p (f.remove (conf_path corpus p) p.disk)
  clear_as corpus p no_file = (p, ok tt)
  clear_as corpus p (unknown e) = (p, err (message e))

  unfoldable pub clear :
      Str → LiveAttrsBuildConfProvider D → LiveAttrsBuildConfProvider D × Result (Unit {0})
  clear corpus p0 =
      let p = record p0 { data_ = delete corpus p0.data_ } in
      clear_as corpus p (f.status (conf_path corpus p) p.disk)

-- The calls of the provider. A configuration to save is a new one.
pub data Op : Type 0 where
  op_get : Str → Op
  op_get_uncached : Str → Op
  op_uncache : Str → Op
  op_clear : Str → Op
  op_save : VteConf → Op

module _ {D : Type 0} (path_join : List Str → Str) (f : Files D) where
  unfoldable pub exec : Op → LiveAttrsBuildConfProvider D → LiveAttrsBuildConfProvider D
  unfolding get load_from_file uncache clear save
  exec (op_get corpus) p = (get path_join f corpus p).0
  exec (op_get_uncached corpus) p = (load_from_file path_join f corpus false p).0
  exec (op_uncache corpus) p = (uncache corpus p).0
  exec (op_clear corpus) p = (clear path_join f corpus p).0
  exec (op_save c) p =
      (save path_join f (some (length p.heap)) (record p { heap = p.heap ++ c ∷ [] })).0

  unfoldable pub run_ops : List Op → LiveAttrsBuildConfProvider D → LiveAttrsBuildConfProvider D
  unfolding exec
  run_ops [] p = p
  run_ops (op ∷ ops) p = run_ops ops (exec op p)
