-- ===== src/Cncdb.antt =====
-- cncdb/actions.go: UpdateCorpusInfo, with UpdateSize and UpdateDescription of cncdb/cncdb.go.
pub mod Endings
use cnc_masm.Prelude.{
  ℕ, ℤ, Bool, true, false, Option, none, some, List, [], ◌∷◌, ◌++◌, Str, str, if◌then◌else◌,
}
use cnc_masm.Corpus.Info.{Files, Manatee, Info, Result, ok, err, panic, get_corpus_info}

pub data Arg : Type 0 where
  number : ℤ → Arg
  text : Str → Arg

-- The database, with one transaction at a time; `D` is its state.
pub record Driver (D : Type 0) : Type 0 where
  pub begin_tx : D → D × Option Str
  pub exec : Str → List Arg → D → D × Option Str
  pub commit : D → D × Option Str
  pub rollback : D → D × Option Str

pub data TxState : Type 0 where
  not_begun : TxState
  rolled_back : TxState
  committed : TxState
  commit_failed : TxState

-- What is written to the response: an error with status 500 or 404, or ok.
pub data Reply : Type 0 where
  internal_server_error : Reply
  not_found : Reply
  ok_sent : Reply

-- `replies` are all that are written, in their order; `crashed` is a panic.
pub record Updated (D : Type 0) : Type 0 where
  pub db : D
  pub tx : TxState
  pub replies : List Reply
  pub crashed : Bool

abbrev pub replied : {D : Type 0} → TxState → List Reply → D → Updated D
replied tx rs d = record { db = d; tx = tx; replies = rs; crashed = false }

abbrev pub crash : {D : Type 0} → D → Updated D
crash d = record { db = d; tx = not_begun; replies = []; crashed = true }

module _ {D : Type 0} (v : Driver D) (table : Str) where
  unfoldable pub update_size : Str → ℤ → D → D × Option Str
  update_size corpus size d =
      v.exec (str "UPDATE " ++ (table ++ str " SET size = ? WHERE name = ?"))
        (number size ∷ text corpus ∷ []) d

  -- One of the two descriptions, if it is given.
  unfoldable pub set_description : Str → Str → Str → D → D × Option Str
  set_description column corpus [] d = (d, none)
  set_description column corpus (c ∷ desc) d =
      v.exec (str "UPDATE " ++ (table ++ (str " SET " ++ (column ++ str " = ? WHERE name = ?"))))
        (text (c ∷ desc) ∷ text corpus ∷ []) d

  abbrev pub then_english : Str → Str → D × Option Str → D × Option Str
  then_english corpus desc_en (d, some e) = (d, some e)
  then_english corpus desc_en (d, none) = set_description (str "description_en") corpus desc_en d

  unfoldable pub update_description : Str → Str → Str → D → D × Option Str
  unfolding set_description
  update_description corpus desc_cs desc_en d =
      then_english corpus desc_en (set_description (str "description_cs") corpus desc_cs d)

  -- After `CommitTx`, whose error is answered, and then the answer ok is written too.
  abbrev pub after_commit : D × Option Str → Updated D
  after_commit (d, none) = replied committed (ok_sent ∷ []) d
  after_commit (d, some e) = replied commit_failed (internal_server_error ∷ ok_sent ∷ []) d

  abbrev pub after_late_commit : D × Option Str → Updated D
  after_late_commit (d, none) = replied rolled_back (ok_sent ∷ []) d
  after_late_commit (d, some e) = replied rolled_back (internal_server_error ∷ ok_sent ∷ []) d

  -- The rollback after an error of `UpdateDescription` does not return.
  abbrev pub after_description : D × Option Str → Updated D
  after_description (d, none) = after_commit (v.commit d)
  after_description (d, some e) = after_late_commit (v.commit (v.rollback d).0)

  abbrev pub after_size : Str → Str → Str → D × Option Str → Updated D
  after_size corpus desc_cs desc_en (d, none) =
      after_description (update_description corpus desc_cs desc_en d)
  after_size corpus desc_cs desc_en (d, some e) =
      replied rolled_back (internal_server_error ∷ []) (v.rollback d).0

  -- The error of `StartTx` is not looked at; its transaction is nil then.
  abbrev pub after_start : Str → ℤ → Str → Str → D × Option Str → Updated D
  after_start corpus size desc_cs desc_en (d, none) =
      after_size corpus desc_cs desc_en (update_size corpus size d)
  after_start corpus size desc_cs desc_en (d, some e) = crash d

  abbrev pub update_with : Str → Str → Str → Result Info → D → Updated D
  update_with corpus desc_cs desc_en (err e) d = replied not_begun (internal_server_error ∷ []) d
  update_with corpus desc_cs desc_en panic d = crash d
  update_with corpus desc_cs desc_en (ok info) d =
      if info.primary.path.file_exists
      then after_start corpus info.primary.size desc_cs desc_en (v.begin_tx d)
      else replied not_begun (not_found ∷ []) d

  unfoldable pub update_corpus_info :
      {C : Type 0} → Files → Manatee C → List Str → Str → Str → Str → D → Updated D
  unfolding get_corpus_info update_size update_description
  update_corpus_info f m dirs corpus desc_cs desc_en d =
      update_with corpus desc_cs desc_en (get_corpus_info f m dirs corpus false) d
