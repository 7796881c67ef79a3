-- ===== src/Tests/Deletion.antt =====
-- Delete where the CNC database cannot begin a transaction, and where all goes well.
use cnc_masm.Prelude.{ℕ, ◌≡◌, refl, Option, none, some, [], Str, str, str_eq, inl}
use cnc_masm.LiveAttrs.Sql.Adhoc.{DbInfo}
use cnc_masm.LiveAttrs.Deletion.{Driver, in_progress, not_begun, failed, answered, delete_action}
use cnc_masm.LiveAttrs.Deletion.Endings.{EndsAt, delete_action-EndsAt}

-- A database that counts its calls.
abbrev fine : ℕ → ℕ × Option Str
fine n = (n, none)

abbrev no_cnc : Driver ℕ
no_cnc = record {
  begin_la = fine;
  exec_la = λ sql args. fine;
  commit_la = fine;
  rollback_la = λ n. n;
  begin_cnc = λ n. (n, some (str "gone"));
  exec_cnc = λ sql args. fine;
  commit_cnc = fine;
  rollback_cnc = λ n. n;
  send_soft_reset = fine;
}

abbrev susanne : DbInfo
susanne = record {
  name = str "susanne";
  parallel_corpus = [];
  bib_label_attr = [];
  bib_id_attr = [];
}

left_in_progress :
    delete_action no_cnc (str "corpora") (str "susanne") (inl susanne) 0
    ≡ answered 0 in_progress not_begun (failed (str "gone"))
unfolding delete_action str_eq
left_in_progress = refl

delete_action-EndsAt_example :
    EndsAt no_cnc
      (str "corpora")
      (str "susanne")
      0
      (delete_action no_cnc (str "corpora") (str "susanne") (inl susanne) 0)
      (inl susanne)
delete_action-EndsAt_example =
    delete_action-EndsAt no_cnc (str "corpora") (str "susanne") (inl susanne) 0
