-- ===== src/Corpus/DataSync/Newest.antt =====
-- corpus/datasync.go: which of the two directories is copied over the other.
use cnc_masm.Prelude.{
  ℕ, Bool, true, false, some, List, [], ◌∷◌, ◌++◌, Str, str, all, ◌⊎◌, inl, inr, length, ltb, leb,
  ◌≤◌, ◌<◌, ◌≡◌, refl, sym, ◌==◌, ◌&&◌, Bool-cases, arith,
}
use cnc_masm.Corpus.DataSync.{
  Disk, CorporaDataPaths, Direction, from_kontext, from_cnc, nowhere, latest, direction, files_as,
  files_in, copy, copy_from, sync_listed, sync_dirs, data_dir, synchronize_corpus_data,
}

-- What is documented of the list of files: the latest one is the first.
pub record IsSorted {D : Type 0} (k : Disk D) : Type 0 where
  pub newest_first :
      (path : Str) (d : D) (t : ℕ) (ts : List ℕ)
      → k.list_files path d ≡ inl (t ∷ ts)
      → all (λ u. leb u t) ts ≡ true

-- The first directory has a later file than all of the second, or one as late and more files.
pub record IsNewer (ss ts : List ℕ) : Type 0 where
  pub none_later : all (λ u. leb u (latest ss)) ts ≡ true
  pub newer : (latest ts < latest ss) ⊎ (length ts < length ss)

data Chosen (a b : List ℕ) : Direction → Type 0 where
  to_cnc :
      latest a ≤ latest b → (latest a < latest b) ⊎ (length a < length b) → Chosen a b from_kontext
  to_kontext :
      latest b ≤ latest a → (latest b < latest a) ⊎ (length b < length a) → Chosen a b from_cnc
  none_chosen : Chosen a b nowhere

direction-Chosen : (a b : List ℕ) → Chosen a b (direction a b)
unfolding direction
direction-Chosen a b = elim (Bool-cases (ltb (latest a) (latest b))) [
  | inl k ↦ rw k (to_cnc (ground (arith, k)) (inl (ground (arith, k))))
  | inr nk ↦ elim (Bool-cases (ltb (latest b) (latest a))) [
    | inl c ↦ rw (nk, c) (to_kontext (ground (arith, c)) (inl (ground (arith, c))))
    | inr nc ↦ elim (Bool-cases (ltb (length a) (length b))) [
      | inl k ↦ rw (nk, nc, k) (to_cnc (ground (arith, nk, nc)) (inr (ground (arith, k))))
      | inr mk ↦ elim (Bool-cases (ltb (length b) (length a))) [
        | inl c ↦ rw (nk, nc, mk, c) (to_kontext (ground (arith, nk, nc)) (inr (ground (arith, c))))
        | inr mc ↦ rw (nk, nc, mk, mc) none_chosen
      ]
    ]
  ]
]

all-leb :
    (m n : ℕ) (ts : List ℕ) → m ≤ n → all (λ u. leb u m) ts ≡ true → all (λ u. leb u n) ts ≡ true
all-leb m n [] l h = refl
all-leb m n (t ∷ ts) l h = ground (arith, l, h, all-leb m n ts l)

module _ {D : Type 0} (k : Disk D) where
  -- What a copy from `src` to `dst` says of them, and the disk that it leaves.
  pub data Copies (d d' : D) (src dst : Str) : Type 0 where
    copies :
        (ss ts : List ℕ)
        → files_in k src d ≡ inl ss
        → files_in k dst d ≡ inl ts
        → IsNewer ss ts
        → d' ≡ (k.rsync (src ++ str "/") dst d).0
        → Copies d d' src dst

module _ {D : Type 0} (k : Disk D) (sorted : IsSorted k) where
  files-latest :
      (path : Str) (d : D) (dir : Bool ⊎ Str) (ts : List ℕ)
      → files_as k path d dir ≡ inl ts
      → all (λ u. leb u (latest ts)) ts ≡ true
  files-latest path d dir [] h = refl
  files-latest path d (inl true) (t ∷ ts) h =
      let rest = sorted.newest_first path d t ts h in ground (arith, rest)
  files-latest path d (inl false) (t ∷ ts) h = absurd (cc)
  files-latest path d (inr e) (t ∷ ts) h = absurd (cc)

  files_in-latest :
      (path : Str) (d : D) (ts : List ℕ)
      → files_in k path d ≡ inl ts
      → all (λ u. leb u (latest ts)) ts ≡ true
  unfolding files_in
  files_in-latest path d ts h = files-latest path d (k.is_dir path d) ts h

  copy_from-Copies :
      (cnc kontext : Str) (a b : List ℕ) (d : D) (dir : Direction) (src dst : Str)
      → files_in k cnc d ≡ inl a
      → files_in k kontext d ≡ inl b
      → Chosen a b dir
      → (copy_from k cnc kontext a b d dir).copied ≡ some (src, dst)
      → Copies k d (copy_from k cnc kontext a b d dir).disk src dst
  unfolding copy
  copy_from-Copies cnc kontext a b d from_kontext src dst ea eb (to_cnc l n) h =
      let e : kontext ≡ src = cc in
      let e' : cnc ≡ dst = cc in
      rw (sym e, sym e')
        (copies b a eb ea
          (record {
            none_later = all-leb (latest a) (latest b) a l (files_in-latest cnc d a ea);
            newer = n;
          })
          refl)
  copy_from-Copies cnc kontext a b d from_cnc src dst ea eb (to_kontext l n) h =
      let e : cnc ≡ src = cc in
      let e' : kontext ≡ dst = cc in
      rw (sym e, sym e')
        (copies a b ea eb
          (record {
            none_later = all-leb (latest b) (latest a) b l (files_in-latest kontext d b eb);
            newer = n;
          })
          refl)
  copy_from-Copies cnc kontext a b d nowhere src dst ea eb none_chosen h = absurd (cc)

  sync_listed-Copies :
      (cnc kontext : Str) (a b : List ℕ) (d : D) {src dst : Str}
      → files_in k cnc d ≡ inl a
      → files_in k kontext d ≡ inl b
      → (sync_listed k cnc kontext a b d).copied ≡ some (src, dst)
      → Copies k d (sync_listed k cnc kontext a b d).disk src dst
  unfolding sync_listed
  sync_listed-Copies cnc kontext a b d ea eb h =
      elim (Bool-cases ((latest a == 0) && (latest b == 0))) [
        | inl empty ↦ absurd (ground (arith, empty, h))
        | inr listed ↦ rw listed (
            copy_from-Copies cnc kontext a b d (direction a b) _ _ ea eb (direction-Chosen a b)
              (rw listed at h))
      ]

  sync_dirs-Copies :
      (cnc kontext : Str) (d : D) (a b : List ℕ ⊎ Str) {src dst : Str}
      → files_in k cnc d ≡ a
      → files_in k kontext d ≡ b
      → (sync_dirs k cnc kontext d a b).copied ≡ some (src, dst)
      → Copies k d (sync_dirs k cnc kontext d a b).disk src dst
  sync_dirs-Copies cnc kontext d (inl a) (inl b) ea eb h =
      sync_listed-Copies cnc kontext a b d ea eb h
  sync_dirs-Copies cnc kontext d (inr e) b ea eb h = absurd (cc)
  sync_dirs-Copies cnc kontext d (inl a) (inr e) ea eb h = absurd (cc)

  -- If lists of files have the latest one first, synchronizeCorpusData copies a directory over another
  -- only if no file of the other is later than the latest one of the first, and that one is later
  -- than the latest one of the other, or the first has more files; and the disk is what rsync leaves,
  -- called with the first as its source and the other as its destination.
  pub synchronize_corpus_data-Copies :
      (paths : CorporaDataPaths) (corpus : Str) (d : D) {src dst : Str}
      → (synchronize_corpus_data k paths corpus d).copied ≡ some (src, dst)
      → Copies k d (synchronize_corpus_data k paths corpus d).disk src dst
  unfolding synchronize_corpus_data
  synchronize_corpus_data-Copies paths corpus d h =
      sync_dirs-Copies (data_dir k paths.cnc corpus) (data_dir k paths.kontext corpus) d
        (files_in k (data_dir k paths.cnc corpus) d)
        (files_in k (data_dir k paths.kontext corpus) d) refl refl h
