-- ===== src/LiveAttrs/Deletion/Endings.antt =====
-- liveattrs/actions/data.go: how Delete ends, by the first of its calls that fails.
use cnc_masm.Prelude.{Option, none, some, Str, ◌≡◌, refl, ◌⊎◌, inl, inr}
use cnc_masm.LiveAttrs.Sql.Adhoc.{DbInfo, grouped_name}
use cnc_masm.LiveAttrs.Deletion.{
  Driver, not_begun, in_progress, committed, rolled_back, commit_failed, failed, done, Deleted,
  answered, delete_table, unset_live_attrs, after_soft_reset, after_commit_cnc, after_commit_la,
  after_unset, after_begin_cnc, after_delete_table, after_begin_la, delete_action,
}

-- The last of the calls that have been made.
pub data Stage : Type 0 where
  la_begun : Stage
  table_deleted : Stage
  cnc_begun : Stage
  attrs_unset : Stage
  la_committed : Stage
  cnc_committed : Stage

module _ {D : Type 0} (v : Driver D) (table corpus : Str) where
  -- From the databases `d` all the calls up to a stage meet no error, and leave what is given.
  pub data Reaches (info : DbInfo) (d : D) : Stage → D → Type 0 where
    begins_la : {x : D} → v.begin_la d ≡ (x, none) → Reaches info d la_begun x
    deletes :
        {x y : D}
        → Reaches info d la_begun x
        → delete_table v (grouped_name info) corpus x ≡ (y, none)
        → Reaches info d table_deleted y
    begins_cnc :
        {x y : D}
        → Reaches info d table_deleted x
        → v.begin_cnc x ≡ (y, none)
        → Reaches info d cnc_begun y
    unsets :
        {x y : D}
        → Reaches info d cnc_begun x
        → unset_live_attrs v table corpus x ≡ (y, none)
        → Reaches info d attrs_unset y
    commits_la :
        {x y : D}
        → Reaches info d attrs_unset x
        → v.commit_la x ≡ (y, none)
        → Reaches info d la_committed y
    commits_cnc :
        {x y : D}
        → Reaches info d la_committed x
        → v.commit_cnc x ≡ (y, none)
        → Reaches info d cnc_committed y

  -- Where no information is had, and where each of the calls fails, or none of them.
  pub data EndsAt (d : D) (u : Deleted D) : DbInfo ⊎ Str → Type 0 where
    not_loaded : (e : Str) → u ≡ answered d not_begun not_begun (failed e) → EndsAt d u (inr e)
    crashes :
        {info : DbInfo} {x : D} {e : Str}
        → v.begin_la d ≡ (x, some e)
        → u ≡ record { db = x; tx0 = not_begun; tx1 = not_begun; answer = none }
        → EndsAt d u (inl info)
    not_deleted :
        {info : DbInfo} {x y : D} {e : Str}
        → Reaches info d la_begun x
        → delete_table v (grouped_name info) corpus x ≡ (y, some e)
        → u ≡ answered (v.rollback_la y) rolled_back not_begun (failed e)
        → EndsAt d u (inl info)
    cnc_not_begun :
        {info : DbInfo} {x y : D} {e : Str}
        → Reaches info d table_deleted x
        → v.begin_cnc x ≡ (y, some e)
        → u ≡ answered y in_progress not_begun (failed e)
        → EndsAt d u (inl info)
    not_unset :
        {info : DbInfo} {x y : D} {e : Str}
        → Reaches info d cnc_begun x
        → unset_live_attrs v table corpus x ≡ (y, some e)
        → u ≡ answered (v.rollback_cnc y) in_progress rolled_back (failed e)
        → EndsAt d u (inl info)
    la_not_committed :
        {info : DbInfo} {x y : D} {e : Str}
        → Reaches info d attrs_unset x
        → v.commit_la x ≡ (y, some e)
        → u ≡ answered (v.rollback_cnc y) commit_failed rolled_back (failed e)
        → EndsAt d u (inl info)
    cnc_not_committed :
        {info : DbInfo} {x y : D} {e : Str}
        → Reaches info d la_committed x
        → v.commit_cnc x ≡ (y, some e)
        → u ≡ answered y committed commit_failed (failed e)
        → EndsAt d u (inl info)
    not_reset :
        {info : DbInfo} {x y : D} {e : Str}
        → Reaches info d cnc_committed x
        → v.send_soft_reset x ≡ (y, some e)
        → u ≡ answered y committed committed (failed e)
        → EndsAt d u (inl info)
    all_done :
        {info : DbInfo} {x y : D}
        → Reaches info d cnc_committed x
        → v.send_soft_reset x ≡ (y, none)
        → u ≡ answered y committed committed done
        → EndsAt d u (inl info)

  module _ (info : DbInfo) (d : D) where
    soft_reset-EndsAt :
        {x : D}
        → Reaches info d cnc_committed x
        → (r : D × Option Str) → v.send_soft_reset x ≡ r
        → EndsAt d (after_soft_reset v r) (inl info)
    soft_reset-EndsAt s (y, none) e = all_done s e refl
    soft_reset-EndsAt s (y, some msg) e = not_reset s e refl

    commit_cnc-EndsAt :
        {x : D}
        → Reaches info d la_committed x
        → (r : D × Option Str) → v.commit_cnc x ≡ r
        → EndsAt d (after_commit_cnc v r) (inl info)
    commit_cnc-EndsAt s (y, none) e = soft_reset-EndsAt (commits_cnc s e) (v.send_soft_reset y) refl
    commit_cnc-EndsAt s (y, some msg) e = cnc_not_committed s e refl

    commit_la-EndsAt :
        {x : D}
        → Reaches info d attrs_unset x
        → (r : D × Option Str) → v.commit_la x ≡ r
        → EndsAt d (after_commit_la v r) (inl info)
    commit_la-EndsAt s (y, none) e = commit_cnc-EndsAt (commits_la s e) (v.commit_cnc y) refl
    commit_la-EndsAt s (y, some msg) e = la_not_committed s e refl

    unset-EndsAt :
        {x : D}
        → Reaches info d cnc_begun x
        → (r : D × Option Str) → unset_live_attrs v table corpus x ≡ r
        → EndsAt d (after_unset v r) (inl info)
    unset-EndsAt s (y, none) e = commit_la-EndsAt (unsets s e) (v.commit_la y) refl
    unset-EndsAt s (y, some msg) e = not_unset s e refl

    begin_cnc-EndsAt :
        {x : D}
        → Reaches info d table_deleted x
        → (r : D × Option Str) → v.begin_cnc x ≡ r
        → EndsAt d (after_begin_cnc v table corpus r) (inl info)
    begin_cnc-EndsAt s (y, none) e =
        unset-EndsAt (begins_cnc s e) (unset_live_attrs v table corpus y) refl
    begin_cnc-EndsAt s (y, some msg) e = cnc_not_begun s e refl

    delete_table-EndsAt :
        {x : D}
        → Reaches info d la_begun x
        → (r : D × Option Str) → delete_table v (grouped_name info) corpus x ≡ r
        → EndsAt d (after_delete_table v table corpus r) (inl info)
    delete_table-EndsAt s (y, none) e = begin_cnc-EndsAt (deletes s e) (v.begin_cnc y) refl
    delete_table-EndsAt s (y, some msg) e = not_deleted s e refl

    begin_la-EndsAt :
        (r : D × Option Str)
        → v.begin_la d ≡ r
        → EndsAt d (after_begin_la v table corpus info r) (inl info)
    begin_la-EndsAt (x, none) e =
        delete_table-EndsAt (begins_la e) (delete_table v (grouped_name info) corpus x) refl
    begin_la-EndsAt (x, some msg) e = crashes e refl

  -- Delete loads the information, begins the transaction of live attributes, deletes the table, begins
  -- the transaction of the CNC database, unsets the attributes, commits the first transaction and then
  -- the second, and resets KonText. It ends at the first of these calls that fails: with a panic if
  -- that is the beginning of the first transaction, and with the error of the call otherwise. The
  -- first transaction is rolled back if the table is not deleted, and has no end if the second is not
  -- begun or the attributes are not unset; the second is rolled back if the attributes are not unset
  -- or the first is not committed. If no call fails, both are committed and the answer is ok.
  pub delete_action-EndsAt :
      (info : DbInfo ⊎ Str) (d : D) → EndsAt d (delete_action v table corpus info d) info
  unfolding delete_action
  delete_action-EndsAt (inr e) d = not_loaded e refl
  delete_action-EndsAt (inl info) d = begin_la-EndsAt info d (v.begin_la d) refl
