-- ===== src/Corpus/Info/Total.antt =====
-- corpus/corpus.go: what GetCorpusInfo returns without an error of Manatee or of a file.
use cnc_masm.Prelude.{
  ℕ, pos, negsuc, Bool, true, false, Option, none, some, List, [], ◌∷◌, Str, str, StrMap, ◌⊎◌, inl,
  inr, ◌≡◌, refl, ap,
}
use cnc_masm.Corpus.Info.{
  Failure, Result, ok, ◌>>=◌, answered, map_err, Files, Manatee, Info, CorpusData, RegistryConf,
  FileMappedValue, no_file, parse_subcorp_attrs, split_list, bind_value_to_path,
  get_first_valid_registry, get_corpus_data, open_registry, variant_data, limited_data,
  read_registry, get_corpus_info, conf_of, opened, bind_as, bind_file, data_as,
}

-- What a run needs that meets no error of Manatee and of the functions for files. The size of a corpus
-- may be an error, which is part of the answer.
pub record Answers {C : Type 0} (f : Files) (m : Manatee C) : Type 0 where
  pub is_file : (p : Str) → (f.is_file p).1 ≡ none
  pub mtime : (p : Str) → (t : Str) × (f.get_file_mtime p ≡ inl t)
  pub is_dir : (p : Str) → (b : Bool) × (f.is_dir p ≡ inl b)
  pub file_size : (p : Str) → (n : ℕ) × (f.file_size p ≡ inl n)
  pub opens : (p : Str) → (c : C) × (m.open_path p ≡ inl c)
  pub conf : (c : C) (prop : Str) → (v : Str) × (m.corpus_conf c prop ≡ inl v)

module _ (f : Files) where
  -- What is known of a path: its time and size if it is a file, and else that it is none.
  pub data IsBound (value path : Str) (v : FileMappedValue) : Type 0 where
    file_there :
        (time : Str) (size : ℕ)
        → (f.is_file path).0 ≡ true
        → f.get_file_mtime path ≡ inl time
        → f.file_size path ≡ inl size
        → v ≡ record {
          value = value;
          path = path;
          file_exists = true;
          last_modified = some time;
          size = size;
        }
        → IsBound value path v
    file_missing : (f.is_file path).0 ≡ false → v ≡ no_file value path → IsBound value path v

module _ {C : Type 0} (f : Files) (m : Manatee C) where
  -- The directory of the data of an open corpus.
  pub record IsDataDir (c : C) (v : FileMappedValue) : Type 0 where
    pub path : Str
    pub time : Str
    pub is_dir : Bool
    pub size : ℕ
    pub conf : m.corpus_conf c (str "PATH") ≡ inl path
    pub mtime : f.get_file_mtime (f.path_clean path) ≡ inl time
    pub directory : f.is_dir (f.path_clean path) ≡ inl is_dir
    pub file_size : f.file_size (f.path_clean path) ≡ inl size
    pub shown : v ≡ record {
      value = f.path_clean path;
      path = [];
      file_exists = is_dir;
      last_modified = some time;
      size = size;
    }

  -- What is known of the data of an open corpus: its size and its directory, or the error of the size.
  pub data IsDataOf (c : C) (d : CorpusData) : Type 0 where
    measured :
        (n : ℕ)
        → m.corpus_size c ≡ inl n
        → d.size ≡ pos n
        → d.manatee_error ≡ none
        → IsDataDir c d.path
        → IsDataOf c d
    not_measured :
        (e : Str)
        → m.corpus_size c ≡ inr e
        → d ≡ record { size = negsuc 0; path = no_file [] []; manatee_error = some e }
        → IsDataOf c d

  -- The limited variant, if it is asked for.
  pub data IsLimited (dirs : List Str) (corpus : Str) (d : Option CorpusData) : Bool → Type 0 where
    not_asked : d ≡ none → IsLimited dirs corpus d false
    asked :
        (c : C) (x : CorpusData)
        → m.open_path (get_first_valid_registry f dirs corpus (str "omezeni")) ≡ inl c
        → IsDataOf c x
        → d ≡ some x
        → IsLimited dirs corpus d true

  -- What is read from the registry of an open corpus.
  pub record IsRegistry (c : C) (r : FileMappedValue) (structs : List Str) (conf : RegistryConf)
      : Type 0 where
    pub paths : conf.paths ≡ r ∷ []
    pub encoding : m.corpus_conf c (str "ENCODING") ≡ inl conf.encoding
    pub attrs_text : Str
    pub attrs : m.corpus_conf c (str "SUBCORPATTRS") ≡ inl attrs_text
    pub attrs_read : parse_subcorp_attrs attrs_text ≡ ok conf.subcorp_attrs
    pub structs_text : Str
    pub structs_list : m.corpus_conf c (str "STRUCTLIST") ≡ inl structs_text
    pub structs_split : structs ≡ split_list structs_text
    pub vertical_path : Str
    pub vertical : m.corpus_conf c (str "VERTICAL") ≡ inl vertical_path
    pub vertical_bound : IsBound f vertical_path vertical_path conf.vertical

  -- The information about an installed corpus.
  pub record Describes (dirs : List Str) (corpus : Str) (try_limited : Bool) (info : Info)
      : Type 0 where
    pub id : info.id ≡ corpus
    pub registry : FileMappedValue
    pub bound :
        IsBound f
          (get_first_valid_registry f dirs corpus [])
          (get_first_valid_registry f dirs corpus [])
          registry
    pub opened : C
    pub opens : m.open_path (get_first_valid_registry f dirs corpus []) ≡ inl opened
    pub primary : IsDataOf opened info.primary
    pub limited : IsLimited dirs corpus info.limited try_limited
    pub conf : IsRegistry opened registry info.indexed_structs info.registry_conf

-- A result that is there and has a property.
data Gives {A : Type 0} (P : A → Type 0) : Result A → Type 0 where
  gives : (a : A) → P a → Gives P (ok a)

>>=-Gives :
    {A B : Type 0} {P : A → Type 0} {Q : B → Type 0} {r : Result A} {k : A → Result B}
    → Gives P r
    → ((a : A) → P a → Gives Q (k a))
    → Gives Q (r >>= k)
>>=-Gives (gives a h) next = next a h

map_err-Gives :
    {A : Type 0} {P : A → Type 0} (g : Failure → Failure) {r : Result A}
    → Gives P r
    → Gives P (map_err g r)
map_err-Gives g (gives a h) = gives a h

answered-Gives :
    {A : Type 0} (r : A ⊎ Str) → (a : A) × (r ≡ inl a) → Gives (λ a. r ≡ inl a) (answered r)
answered-Gives (inl x) (a, e) = gives x refl
answered-Gives (inr x) (a, e) = absurd (cc)

Gives-ok : {A : Type 0} {P : A → Type 0} {r : Result A} → Gives P r → (a : A) × (r ≡ ok a) × P a
Gives-ok (gives a h) = (a, refl, h)

module _ {C : Type 0} (f : Files) (m : Manatee C) (ans : Answers f m) where
  bind_file-Gives : (v p : Str) → (f.is_file p).0 ≡ true → Gives (IsBound f v p) (bind_file f v p)
  bind_file-Gives v p there = >>=-Gives (answered-Gives _ (ans.mtime p)) λ t et.
      >>=-Gives (answered-Gives _ (ans.file_size p))
        λ n en. gives _ (file_there t n there et en refl)

  bind_as-Gives :
      (v p : Str) (a : Bool × Option Str)
      → f.is_file p ≡ a
      → a.1 ≡ none
      → Gives (IsBound f v p) (bind_as f v p a)
  bind_as-Gives v p (true, none) e h = bind_file-Gives v p (ap (λ r. r.0) e)
  bind_as-Gives v p (false, none) e h = gives _ (file_missing (ap (λ r. r.0) e) refl)
  bind_as-Gives v p (b, some x) e h = absurd (cc)

  bind_value_to_path-Gives : (v p : Str) → Gives (IsBound f v p) (bind_value_to_path f v p)
  unfolding bind_value_to_path
  bind_value_to_path-Gives v p = bind_as-Gives v p (f.is_file p) refl (ans.is_file p)

  data_path-Gives :
      (c : C)
      → Gives (IsDataDir f m c) (do
        path ← answered (m.corpus_conf c (str "PATH"))
        mtime ← answered (f.get_file_mtime (f.path_clean path))
        is_dir ← answered (f.is_dir (f.path_clean path))
        size ← answered (f.file_size (f.path_clean path))
        ok (record {
          value = f.path_clean path;
          path = [];
          file_exists = is_dir;
          last_modified = some mtime;
          size = size;
        }))
  data_path-Gives c = >>=-Gives (answered-Gives _ (ans.conf c (str "PATH"))) λ path e1.
      >>=-Gives (answered-Gives _ (ans.mtime (f.path_clean path))) λ t e2.
        >>=-Gives (answered-Gives _ (ans.is_dir (f.path_clean path))) λ d e3.
          >>=-Gives (answered-Gives _ (ans.file_size (f.path_clean path))) λ n e4. gives _ (record {
            path = path;
            time = t;
            is_dir = d;
            size = n;
            conf = e1;
            mtime = e2;
            directory = e3;
            file_size = e4;
            shown = refl;
          })

  opened-Gives :
      (other : Str → Failure) (p : Str) (r : C ⊎ Str)
      → m.open_path p ≡ r
      → (c : C) × (r ≡ inl c)
      → Gives (λ c. m.open_path p ≡ inl c) (opened f m other r)
  opened-Gives other p (inl c) e h = gives c e
  opened-Gives other p (inr x) e (c, h) = absurd (cc)

  data_as-Gives :
      (c : C) (n : ℕ ⊎ Str) → m.corpus_size c ≡ n → Gives (IsDataOf f m c) (data_as f m c n)
  data_as-Gives c (inr e) en = gives _ (not_measured e en refl)
  data_as-Gives c (inl n) en =
      >>=-Gives (map_err-Gives _ (data_path-Gives c)) λ p h. gives _ (measured n en refl refl h)

  get_corpus_data-Gives : (c : C) → Gives (IsDataOf f m c) (get_corpus_data f m c)
  unfolding get_corpus_data
  get_corpus_data-Gives c = data_as-Gives c (m.corpus_size c) refl

  open_registry-Gives : (p : Str) → Gives (λ c. m.open_path p ≡ inl c) (open_registry f m p)
  unfolding open_registry
  open_registry-Gives p = opened-Gives _ p (m.open_path p) refl (ans.opens p)

  variant_data-Gives :
      (p : Str) → Gives (λ (c, d). (m.open_path p ≡ inl c) × IsDataOf f m c d) (variant_data f m p)
  variant_data-Gives p = >>=-Gives (map_err-Gives _ (open_registry-Gives p)) λ c opens.
      >>=-Gives (map_err-Gives _ (get_corpus_data-Gives c)) λ d h. gives (c, d) (opens, h)

  limited_data-Gives :
      (dirs : List Str) (corpus : Str) (b : Bool)
      → Gives (λ d. IsLimited f m dirs corpus d b) (limited_data f m dirs corpus b)
  limited_data-Gives dirs corpus false = gives none (not_asked refl)
  limited_data-Gives dirs corpus true =
      >>=-Gives (variant_data-Gives (get_first_valid_registry f dirs corpus (str "omezeni")))
        λ (c, d) h. gives (some d) (asked c d h.0 h.1 refl)

  conf_of-Gives :
      (c : C) (prop : Str) → Gives (λ t. m.corpus_conf c prop ≡ inl t) (conf_of f m c prop)
  conf_of-Gives c prop = map_err-Gives _ (answered-Gives (m.corpus_conf c prop) (ans.conf c prop))

  -- All the texts of SUBCORPATTRS can be read.
  abbrev pub Readable : Type 0
  Readable =
      (c : C) (t : Str)
      → m.corpus_conf c (str "SUBCORPATTRS") ≡ inl t
      → (a : StrMap (List Str)) × (parse_subcorp_attrs t ≡ ok a)

  parse-Gives :
      Readable
      → (c : C) (t : Str) → m.corpus_conf c (str "SUBCORPATTRS") ≡ inl t
      → Gives (λ a. parse_subcorp_attrs t ≡ ok a) (parse_subcorp_attrs t)
  parse-Gives readable c t e = let (a, e') = readable c t e in rw e' (gives a refl)

  read_registry-Gives :
      Readable
      → (c : C) (r : FileMappedValue)
      → Gives (λ (structs, conf). IsRegistry f m c r structs conf) (read_registry f m c r)
  unfolding read_registry
  read_registry-Gives readable c r = >>=-Gives (conf_of-Gives c (str "ENCODING")) λ encoding e1.
      >>=-Gives (conf_of-Gives c (str "SUBCORPATTRS")) λ text e2.
        >>=-Gives (parse-Gives readable c text e2) λ attrs e3.
          >>=-Gives (conf_of-Gives c (str "STRUCTLIST")) λ structs e4.
            >>=-Gives (conf_of-Gives c (str "VERTICAL")) λ path e5.
              >>=-Gives (map_err-Gives _ (bind_value_to_path-Gives path path)) λ vertical e6.
                gives _ (record {
                  paths = refl;
                  encoding = e1;
                  attrs_text = text;
                  attrs = e2;
                  attrs_read = e3;
                  structs_text = structs;
                  structs_list = e4;
                  structs_split = refl;
                  vertical_path = path;
                  vertical = e5;
                  vertical_bound = e6;
                })

  info-Gives :
      Readable
      → (dirs : List Str) (corpus : Str) (b : Bool)
      → Gives (Describes f m dirs corpus b) (get_corpus_info f m dirs corpus b)
  unfolding get_corpus_info
  info-Gives readable dirs corpus b =
      let path = get_first_valid_registry f dirs corpus [] in
      >>=-Gives (map_err-Gives _ (bind_value_to_path-Gives path path)) λ registry e1.
        >>=-Gives (variant_data-Gives path) λ (c, primary) e2.
          >>=-Gives (limited_data-Gives dirs corpus b) λ limited e3.
            >>=-Gives (read_registry-Gives readable c registry) λ (structs, conf) e4.
              gives _ (record {
                id = refl;
                registry = registry;
                bound = e1;
                opened = c;
                opens = e2.0;
                primary = e2.1;
                limited = e3;
                conf = e4;
              })

  -- If Manatee and the functions for files meet no error but that of the size of a corpus, and each
  -- text of SUBCORPATTRS can be read, GetCorpusInfo returns information that has the given name; the
  -- path of the first valid registry, and whether it is there; the size and the directory of the data
  -- of the corpus of that registry, or the error of its size; the same of the limited variant exactly
  -- if it is asked for; and the encoding, the attributes, the structures and the vertical file of the
  -- registry.
  pub get_corpus_info-Describes :
      Readable
      → (dirs : List Str) (corpus : Str) (b : Bool)
      → (info : Info) × (get_corpus_info f m dirs corpus b ≡ ok info)
        × Describes f m dirs corpus b info
  get_corpus_info-Describes readable dirs corpus b = Gives-ok (info-Gives readable dirs corpus b)
