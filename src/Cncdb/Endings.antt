-- ===== src/Cncdb/Endings.antt =====
-- cncdb/actions.go: how UpdateCorpusInfo ends, by the first of its calls that fails.
use cnc_masm.Prelude.{
  true, false, Option, none, some, List, [], ◌∷◌, Str, ◌≡◌, refl, Bool-cases, inl, inr,
}
use cnc_masm.Corpus.Info.{Files, Manatee, Info, Failure, Result, ok, err, panic, get_corpus_info}
use cnc_masm.Cncdb.{
  Driver, not_begun, rolled_back, committed, commit_failed, internal_server_error, not_found,
  ok_sent, Updated, replied, crash, update_size, update_description, after_commit,
  after_late_commit, after_description, after_size, after_start, update_with, update_corpus_info,
}

-- What database/sql documents: a transaction that has been rolled back cannot be committed.
pub record IsClosed {D : Type 0} (v : Driver D) : Type 0 where
  pub refuses : (d : D) → (e : Str) × ((v.commit (v.rollback d).0).1 ≡ some e)

-- The last of the calls that have been made.
pub data Stage : Type 0 where
  started : Stage
  size_set : Stage
  described : Stage

module _ {D : Type 0} (v : Driver D) (table corpus desc_cs desc_en : Str) where
  -- From the database `d` all the calls up to a stage meet no error, and leave what is given.
  pub data Reaches (info : Info) (d : D) : Stage → D → Type 0 where
    starts :
        {x : D}
        → info.primary.path.file_exists ≡ true
        → v.begin_tx d ≡ (x, none)
        → Reaches info d started x
    sets_size :
        {x y : D}
        → Reaches info d started x
        → update_size v table corpus info.primary.size x ≡ (y, none)
        → Reaches info d size_set y
    describes :
        {x y : D}
        → Reaches info d size_set x
        → update_description v table corpus desc_cs desc_en x ≡ (y, none)
        → Reaches info d described y

  -- Where no information is had, and where each of the calls fails, or none of them.
  pub data EndsAt (d : D) (u : Updated D) : Result Info → Type 0 where
    no_info :
        (e : Failure) → u ≡ replied not_begun (internal_server_error ∷ []) d → EndsAt d u (err e)
    info_panics : u ≡ crash d → EndsAt d u panic
    no_data :
        {info : Info}
        → info.primary.path.file_exists ≡ false
        → u ≡ replied not_begun (not_found ∷ []) d
        → EndsAt d u (ok info)
    not_started :
        {info : Info} {x : D} {e : Str}
        → info.primary.path.file_exists ≡ true
        → v.begin_tx d ≡ (x, some e)
        → u ≡ crash x
        → EndsAt d u (ok info)
    size_refused :
        {info : Info} {x y : D} {e : Str}
        → Reaches info d started x
        → update_size v table corpus info.primary.size x ≡ (y, some e)
        → u ≡ replied rolled_back (internal_server_error ∷ []) (v.rollback y).0
        → EndsAt d u (ok info)
    description_refused :
        {info : Info} {x y : D} {e : Str}
        → Reaches info d size_set x
        → update_description v table corpus desc_cs desc_en x ≡ (y, some e)
        → u
          ≡ replied rolled_back (internal_server_error ∷ ok_sent ∷ []) (v.commit (v.rollback y).0).0
        → EndsAt d u (ok info)
    not_committed :
        {info : Info} {x y : D} {e : Str}
        → Reaches info d described x
        → v.commit x ≡ (y, some e)
        → u ≡ replied commit_failed (internal_server_error ∷ ok_sent ∷ []) y
        → EndsAt d u (ok info)
    all_done :
        {info : Info} {x y : D}
        → Reaches info d described x
        → v.commit x ≡ (y, none)
        → u ≡ replied committed (ok_sent ∷ []) y
        → EndsAt d u (ok info)

module _ {D : Type 0} (v : Driver D) (closed : IsClosed v) (table : Str) where
  late_commit-refused :
      (r : D × Option Str)
      → (e : Str) × (r.1 ≡ some e)
      → after_late_commit v table r ≡ replied rolled_back (internal_server_error ∷ ok_sent ∷ []) r.0
  late_commit-refused (d, some msg) h = refl
  late_commit-refused (d, none) (e, h) = absurd (cc)

  module _ (corpus cs en : Str) (info : Info) (d : D) where
    commit-EndsAt :
        {x : D}
        → Reaches v table corpus cs en info d described x
        → (r : D × Option Str) → v.commit x ≡ r
        → EndsAt v table corpus cs en d (after_commit v table r) (ok info)
    commit-EndsAt s (y, none) e = all_done s e refl
    commit-EndsAt s (y, some msg) e = not_committed s e refl

    description-EndsAt :
        {x : D}
        → Reaches v table corpus cs en info d size_set x
        → (r : D × Option Str) → update_description v table corpus cs en x ≡ r
        → EndsAt v table corpus cs en d (after_description v table r) (ok info)
    description-EndsAt s (y, none) e = commit-EndsAt (describes s e) (v.commit y) refl
    description-EndsAt s (y, some msg) e =
        description_refused s e (late_commit-refused (v.commit (v.rollback y).0) (closed.refuses y))

    size-EndsAt :
        {x : D}
        → Reaches v table corpus cs en info d started x
        → (r : D × Option Str) → update_size v table corpus info.primary.size x ≡ r
        → EndsAt v table corpus cs en d (after_size v table corpus cs en r) (ok info)
    size-EndsAt s (y, none) e =
        description-EndsAt (sets_size s e) (update_description v table corpus cs en y) refl
    size-EndsAt s (y, some msg) e = size_refused s e refl

    start-EndsAt :
        info.primary.path.file_exists ≡ true
        → (r : D × Option Str) → v.begin_tx d ≡ r
        → EndsAt v table corpus cs en d
            (after_start v table corpus info.primary.size cs en r)
            (ok info)
    start-EndsAt there (x, none) e =
        size-EndsAt (starts there e) (update_size v table corpus info.primary.size x) refl
    start-EndsAt there (x, some msg) e = not_started there e refl

  update_with-EndsAt :
      (corpus cs en : Str) (r : Result Info) (d : D)
      → EndsAt v table corpus cs en d (update_with v table corpus cs en r d) r
  update_with-EndsAt corpus cs en (err e) d = no_info e refl
  update_with-EndsAt corpus cs en panic d = info_panics refl
  update_with-EndsAt corpus cs en (ok info) d = elim (Bool-cases info.primary.path.file_exists) [
    | inl there ↦ simp there (start-EndsAt corpus cs en info d there (v.begin_tx d) refl)
    | inr missing ↦ no_data missing (rw missing refl)
  ]

  -- If a transaction that has been rolled back cannot be committed, UpdateCorpusInfo ends at the first
  -- of its calls that fails, after which it changes nothing but by a rollback or a commit. An error of
  -- GetCorpusInfo, and data that are not there, are answered before any transaction; a transaction
  -- that is not begun is a panic. If the size is refused, the reply is an error after a rollback. If
  -- the description is refused, the transaction is rolled back, then its commit is tried, and the
  -- replies are an error and ok; so they are if the commit fails. Ok alone is the reply if no call
  -- fails, and then all is committed.
  pub update_corpus_info-EndsAt :
      {C : Type 0} (f : Files) (m : Manatee C) (dirs : List Str) (corpus cs en : Str) (d : D)
      → EndsAt v table corpus cs en d
          (update_corpus_info v table f m dirs corpus cs en d)
          (get_corpus_info f m dirs corpus false)
  unfolding update_corpus_info
  update_corpus_info-EndsAt f m dirs corpus cs en d =
      update_with-EndsAt corpus cs en (get_corpus_info f m dirs corpus false) d
