-- ===== src/LiveAttrs/Deletion.antt =====
-- liveattrs/actions/data.go: Delete, with DeleteTable of liveattrs/db/auxops.go and UnsetLiveAttrs
-- of cncdb/cncdb.go. The two databases and KonText are parameters; a transaction is a state that
-- the code keeps for each of them.
pub mod Endings
use cnc_masm.Prelude.{
  Option, none, some, List, [], ◌∷◌, ◌++◌, Str, str, str_eq, if◌then◌else◌, ◌⊎◌, inl, inr,
}
use cnc_masm.LiveAttrs.Sql.Adhoc.{DbInfo, grouped_name}

-- No transaction, one without an end, and how one ended. A commit that fails leaves it to the driver.
pub data TxState : Type 0 where
  not_begun : TxState
  in_progress : TxState
  committed : TxState
  rolled_back : TxState
  commit_failed : TxState

-- `laDB` and `cncDB`, and the soft reset of KonText; `D` is the state of all.
pub record Driver (D : Type 0) : Type 0 where
  pub begin_la : D → D × Option Str
  pub exec_la : Str → List Str → D → D × Option Str
  pub commit_la : D → D × Option Str
  pub rollback_la : D → D
  pub begin_cnc : D → D × Option Str
  pub exec_cnc : Str → List Str → D → D × Option Str
  pub commit_cnc : D → D × Option Str
  pub rollback_cnc : D → D
  pub send_soft_reset : D → D × Option Str

-- The answer: an error with status 500, or ok.
pub data Answer : Type 0 where
  failed : Str → Answer
  done : Answer

-- `tx0` and `tx1` with the answer; no answer is a panic.
pub record Deleted (D : Type 0) : Type 0 where
  pub db : D
  pub tx0 : TxState
  pub tx1 : TxState
  pub answer : Option Answer

abbrev pub answered : {D : Type 0} → D → TxState → TxState → Answer → Deleted D
answered d t0 t1 a = record { db = d; tx0 = t0; tx1 = t1; answer = some a }

module _ {D : Type 0} (v : Driver D) where
  abbrev pub after_delete : Str → Str → D × Option Str → D × Option Str
  after_delete grouped corpus (d, some e) = (d, some e)
  after_delete grouped corpus (d, none) =
      if str_eq grouped corpus
      then v.exec_la (str "DROP TABLE " ++ (grouped ++ str "_liveattrs_entry")) [] d
      else (d, none)

  -- `DeleteTable`
  unfoldable pub delete_table : Str → Str → D → D × Option Str
  delete_table grouped corpus d = after_delete grouped corpus (
      v.exec_la (str "DELETE FROM " ++ (grouped ++ str "_liveattrs_entry WHERE corpus_id = ?"))
        (corpus ∷ []) d)

  unfoldable pub unset_live_attrs : Str → Str → D → D × Option Str
  unset_live_attrs table corpus d =
      v.exec_cnc
        (str "UPDATE "
          ++ (table
              ++ str
                  " SET text_types_db = NULL, bib_id_struct = NULL, bib_id_attr = NULL WHERE name = ?"))
        (corpus ∷ []) d

  abbrev pub after_soft_reset : D × Option Str → Deleted D
  after_soft_reset (d, none) = answered d committed committed done
  after_soft_reset (d, some e) = answered d committed committed (failed e)

  abbrev pub after_commit_cnc : D × Option Str → Deleted D
  after_commit_cnc (d, none) = after_soft_reset (v.send_soft_reset d)
  after_commit_cnc (d, some e) = answered d committed commit_failed (failed e)

  abbrev pub after_commit_la : D × Option Str → Deleted D
  after_commit_la (d, none) = after_commit_cnc (v.commit_cnc d)
  after_commit_la (d, some e) = answered (v.rollback_cnc d) commit_failed rolled_back (failed e)

  abbrev pub after_unset : D × Option Str → Deleted D
  after_unset (d, none) = after_commit_la (v.commit_la d)
  after_unset (d, some e) = answered (v.rollback_cnc d) in_progress rolled_back (failed e)

  abbrev pub after_begin_cnc : Str → Str → D × Option Str → Deleted D
  after_begin_cnc table corpus (d, none) = after_unset (unset_live_attrs table corpus d)
  after_begin_cnc table corpus (d, some e) = answered d in_progress not_begun (failed e)

  abbrev pub after_delete_table : Str → Str → D × Option Str → Deleted D
  after_delete_table table corpus (d, none) = after_begin_cnc table corpus (v.begin_cnc d)
  after_delete_table table corpus (d, some e) =
      answered (v.rollback_la d) rolled_back not_begun (failed e)

  -- The error of `Begin` is not looked at; its transaction is nil then.
  abbrev pub after_begin_la : Str → Str → DbInfo → D × Option Str → Deleted D
  after_begin_la table corpus info (d, none) =
      after_delete_table table corpus (delete_table (grouped_name info) corpus d)
  after_begin_la table corpus info (d, some e) = record {
    db = d;
    tx0 = not_begun;
    tx1 = not_begun;
    answer = none;
  }

  -- `Delete`; `info` is what `LoadInfo` gives, and its error.
  unfoldable pub delete_action : Str → Str → DbInfo ⊎ Str → D → Deleted D
  unfolding delete_table unset_live_attrs grouped_name
  delete_action table corpus (inr e) d = answered d not_begun not_begun (failed e)
  delete_action table corpus (inl info) d = after_begin_la table corpus info (v.begin_la d)
