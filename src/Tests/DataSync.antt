-- ===== src/Tests/DataSync.antt =====
-- The synchronization of corpora on concrete data.
use cnc_masm.Prelude.{
  ℕ, suc, Bool, true, false, some, List, [], ◌∷◌, Str, str, str_eq, join, all, leb, ◌⊎◌, inl, ◌≡◌,
  refl, sym,
}
use cnc_masm.Corpus.DataSync.{
  Disk, succeeded, CorporaDataPaths, files_in, direction, copy, sync_listed,
  synchronize_corpus_data,
}
use cnc_masm.Corpus.DataSync.Newest.{IsSorted, Copies, synchronize_corpus_data-Copies}

-- The files of KonText, and of CNC.
abbrev times : Bool → List ℕ ⊎ Str
times true = inl (9 ∷ 4 ∷ [])
times false = inl (7 ∷ [])

-- KonText has a later file; `rsync` counts its runs.
abbrev disk : Disk ℕ
disk = record {
  path_join = join 47;
  path_clean = λ p. p;
  is_dir = λ p d. inl true;
  list_files = λ p d. times (str_eq p (str "/kontext/syn"));
  format_time = λ t. t ∷ [];
  rsync = λ src dst d. (suc d, succeeded (str "sent"));
}

abbrev paths : CorporaDataPaths
paths = record { abstract_path = str "/any"; cnc = str "/cnc"; kontext = str "/kontext" }

copied_test :
    (synchronize_corpus_data disk paths (str "syn") 0).copied
    ≡ some (str "/kontext/syn", str "/cnc/syn")
unfolding synchronize_corpus_data files_in sync_listed direction copy str_eq
copied_test = refl

-- The time that is shown with the source is that of the other directory.
shown_test :
    (synchronize_corpus_data disk paths (str "syn") 0).response.source_dir.latest_mod ≡ 7 ∷ []
unfolding synchronize_corpus_data files_in sync_listed direction copy str_eq
shown_test = refl

tail_is_older :
    (b : Bool) (t : ℕ) (ts : List ℕ) → times b ≡ inl (t ∷ ts) → all (λ u. leb u t) ts ≡ true
tail_is_older true t ts h =
    let e : 9 ≡ t = cc in let e' : 4 ∷ [] ≡ ts = cc in rw (sym e, sym e') refl
tail_is_older false t ts h = let e' : [] ≡ ts = cc in rw (sym e') refl

disk-IsSorted : IsSorted disk
disk-IsSorted = record {
  newest_first = λ p d t ts h. tail_is_older (str_eq p (str "/kontext/syn")) t ts h;
}

synchronize_corpus_data-Copies_example :
    Copies disk 0
      (synchronize_corpus_data disk paths (str "syn") 0).disk
      (str "/kontext/syn")
      (str "/cnc/syn")
synchronize_corpus_data-Copies_example =
    synchronize_corpus_data-Copies disk disk-IsSorted paths (str "syn") 0 copied_test
