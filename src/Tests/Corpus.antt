-- ===== src/Tests/Corpus.antt =====
-- Installed corpora on concrete data.
use cnc_masm.Prelude.{
  true, false, none, List, [], ◌∷◌, Str, str, str_eq, StrMap, join, inl, inr, ◌≡◌, refl, sym,
  lookup, insert, or_else, if◌then◌else◌, Bool-cases,
}
use cnc_masm.Corpus.Info.{
  Files, Manatee, Info, ok, panic, parse_subcorp_attrs, add_subcorp_attr, add_subcorp_attrs,
  add_subcorp_groups, get_corpus_info, get_corpus_info_action, contains_str, open_corpus, err,
  corpus_not_found, loaded, no_rows, internal_server_error,
}
use cnc_masm.Corpus.Info.Attrs.{write_groups, attrs_of, flatten, parse_subcorp_attrs-write_groups}
use cnc_masm.Corpus.Info.Installed.{get_corpus_info_action-not_found}
use cnc_masm.Corpus.Info.Total.{Answers, Describes, get_corpus_info-Describes}

abbrev attrs_text : Str
attrs_text = str "doc.title,doc.author|p.type,doc.lang"

abbrev doc_group : List (Str × Str)
doc_group = (str "doc", str "title") ∷ (str "doc", str "author") ∷ []

abbrev other_group : List (Str × Str)
other_group = (str "p", str "type") ∷ (str "doc", str "lang") ∷ []

write_test : write_groups (doc_group ∷ other_group ∷ []) ≡ attrs_text
write_test = refl

parse_test :
    parse_subcorp_attrs attrs_text
    ≡ ok (
        (str "doc", str "title" ∷ str "author" ∷ str "lang" ∷ []) ∷ (str "p", str "type" ∷ []) ∷ [])
unfolding parse_subcorp_attrs add_subcorp_groups add_subcorp_attrs add_subcorp_attr lookup insert
    str_eq
parse_test = refl

parse_subcorp_attrs-write_groups_example :
    (m : StrMap (List Str)) × (parse_subcorp_attrs (write_groups (doc_group ∷ other_group ∷ []))
      ≡ ok m)
    × ((st : Str) → or_else (lookup st m) [] ≡ attrs_of st (flatten (doc_group ∷ other_group ∷ [])))
parse_subcorp_attrs-write_groups_example =
    parse_subcorp_attrs-write_groups doc_group (other_group ∷ []) refl

no_dot_test : parse_subcorp_attrs (str "doc.title,author") ≡ panic
unfolding parse_subcorp_attrs add_subcorp_groups add_subcorp_attrs add_subcorp_attr lookup insert
    str_eq
no_dot_test = refl

-- Files and corpora that are there, under any path.
abbrev pub files : Files
files = record {
  path_join = join 47;
  path_clean = λ p. p;
  path_exists = λ p. true;
  is_file = λ p. (true, none);
  is_dir = λ p. inl true;
  get_file_mtime = λ p. inl (str "2023-01-01T10:00:00+0100");
  file_size = λ p. inl 7;
}

abbrev pub manatee : Manatee Str
manatee = record {
  open_path = λ p. inl p;
  corpus_size = λ c. inl 1000;
  corpus_conf =
      λ c prop. if str_eq prop (str "SUBCORPATTRS") then inl attrs_text else inl (str "x");
}

-- Manatee without any corpus.
abbrev no_corpora : Manatee Str
no_corpora = record {
  open_path = λ p. inr (str "CorpInfoNotFound");
  corpus_size = λ c. inl 0;
  corpus_conf = λ c prop. inr (str "no corpus");
}

not_found_test :
    get_corpus_info_action files no_corpora (str "/reg" ∷ []) (str "syn") (loaded false)
    ≡ internal_server_error
unfolding get_corpus_info_action
not_found_test = refl

open_test : open_corpus files no_corpora (str "/reg" ∷ []) (str "syn") ≡ err corpus_not_found
unfolding open_corpus contains_str str_eq
open_test = refl

get_corpus_info_action-not_found_example : no_rows ≡ no_rows
unfolding get_corpus_info_action
get_corpus_info_action-not_found_example =
    get_corpus_info_action-not_found files manatee (str "/reg" ∷ []) (str "syn") no_rows refl

conf-answers : (c prop : Str) → (v : Str) × (manatee.corpus_conf c prop ≡ inl v)
conf-answers c prop = elim (Bool-cases (str_eq prop (str "SUBCORPATTRS"))) [
  | inl h ↦ (attrs_text, rw h refl)
  | inr h ↦ (str "x", rw h refl)
]

all_answer : Answers files manatee
all_answer = record {
  is_file = λ p. refl;
  mtime = λ p. (str "2023-01-01T10:00:00+0100", refl);
  is_dir = λ p. (true, refl);
  file_size = λ p. (7, refl);
  opens = λ p. (p, refl);
  conf = conf-answers;
}

attrs-Readable :
    (c t : Str)
    → manatee.corpus_conf c (str "SUBCORPATTRS") ≡ inl t
    → (a : StrMap (List Str)) × (parse_subcorp_attrs t ≡ ok a)
unfolding str_eq
attrs-Readable c t h = let e : attrs_text ≡ t = cc in rw (sym e) (_, parse_test)

get_corpus_info-Describes_example :
    (info : Info) × (get_corpus_info files manatee (str "/reg" ∷ []) (str "syn") true ≡ ok info)
    × Describes files manatee (str "/reg" ∷ []) (str "syn") true info
get_corpus_info-Describes_example =
    get_corpus_info-Describes files manatee all_answer attrs-Readable (str "/reg" ∷ []) (str "syn")
      true
