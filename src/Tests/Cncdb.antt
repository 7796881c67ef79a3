-- ===== src/Tests/Cncdb.antt =====
-- The update of the CNC database on concrete data.
use cnc_masm.Prelude.{
  ℕ, suc, Bool, true, false, none, some, [], ◌∷◌, str, refl, zero, if◌then◌else◌,
}
use cnc_masm.Corpus.Info.{get_corpus_info}
use cnc_masm.Cncdb.{Driver, update_corpus_info}
use cnc_masm.Cncdb.Endings.{IsClosed, EndsAt, update_corpus_info-EndsAt}
use cnc_masm.Tests.Corpus.{files, manatee}

-- The second statement is refused; the state is whether the transaction is closed, and the number of
-- the statements.
abbrev refusing : Driver (Bool × ℕ)
refusing = record {
  begin_tx = λ d. ((false, 0), none);
  exec = λ sql args d. ((d.0, suc d.1), elim d.1 [ zero ↦ none | suc n ↦ some (str "refused") ]);
  commit = λ d. (d, if d.0 then some (str "transaction is done") else none);
  rollback = λ d. ((true, d.1), none);
}

refusing-IsClosed : IsClosed refusing
refusing-IsClosed = record { refuses = λ d. (str "transaction is done", refl) }

update_corpus_info-EndsAt_example :
    EndsAt refusing
      (str "corpora")
      (str "syn")
      (str "popis")
      []
      (false, 0)
      (update_corpus_info refusing
        (str "corpora")
        files
        manatee
        (str "/reg" ∷ [])
        (str "syn")
        (str "popis")
        []
        (false, 0))
      (get_corpus_info files manatee (str "/reg" ∷ []) (str "syn") false)
update_corpus_info-EndsAt_example =
    update_corpus_info-EndsAt refusing refusing-IsClosed (str "corpora") files manatee
      (str "/reg" ∷ []) (str "syn") (str "popis") [] (false, 0)
