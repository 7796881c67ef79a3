-- ===== src/Jobs/Info/Contract.antt =====
-- Every kind of job record keeps the shared part of the contract; two of them break the rest.
use cnc_masm.Prelude.{ℕ, ◌≡◌, refl, true, false, Option, Str}
use cnc_masm.Jobs.Info.{IsJobInfo}
use cnc_masm.Jobs.Info.General.{
  Job, dummy, job_info, job_as_finished, job_with_error, job_error, job_finished, job_id, job_start,
  job_corpus, job_restarts,
}
use cnc_masm.Jobs.Info.Kinds.LiveAttrs
use cnc_masm.Jobs.Info.Kinds.LiveAttrs.{LiveAttrsJobInfo}

module _ {V : Type 0} where
  as_finished-finished : (t : ℕ) (j : Job V) → job_finished (job_as_finished t j) ≡ true
  unfolding job_as_finished
  as_finished-finished t (dummy b j) = refl
  as_finished-finished t _ = refl

  as_finished-error : (t : ℕ) (j : Job V) → job_error (job_as_finished t j) ≡ job_error j
  unfolding job_as_finished
  as_finished-error t (dummy b j) = refl
  as_finished-error t _ = refl

  as_finished-id : (t : ℕ) (j : Job V) → job_id (job_as_finished t j) ≡ job_id j
  unfolding job_as_finished
  as_finished-id t (dummy b j) = refl
  as_finished-id t _ = refl

  as_finished-start : (t : ℕ) (j : Job V) → job_start (job_as_finished t j) ≡ job_start j
  unfolding job_as_finished
  as_finished-start t (dummy b j) = refl
  as_finished-start t _ = refl

  with_error-error : (t : ℕ) (e : Option Str) (j : Job V) → job_error (job_with_error t e j) ≡ e
  unfolding job_with_error
  with_error-error t e (dummy b j) = refl
  with_error-error t e _ = refl

  with_error-id : (t : ℕ) (e : Option Str) (j : Job V) → job_id (job_with_error t e j) ≡ job_id j
  unfolding job_with_error
  with_error-id t e (dummy b j) = refl
  with_error-id t e _ = refl

  with_error-start :
      (t : ℕ) (e : Option Str) (j : Job V) → job_start (job_with_error t e j) ≡ job_start j
  unfolding job_with_error
  with_error-start t e (dummy b j) = refl
  with_error-start t e _ = refl

  with_error-corpus :
      (t : ℕ) (e : Option Str) (j : Job V) → job_corpus (job_with_error t e j) ≡ job_corpus j
  unfolding job_with_error
  with_error-corpus t e (dummy b j) = refl
  with_error-corpus t e _ = refl

  with_error-restarts :
      (t : ℕ) (e : Option Str) (j : Job V) → job_restarts (job_with_error t e j) ≡ job_restarts j
  unfolding job_with_error
  with_error-restarts t e (dummy b j) = refl
  with_error-restarts t e _ = refl

  -- All kinds of job records keep the contract of `IsJobInfo`.
  pub Job-IsJobInfo : IsJobInfo (job_info {V = V})
  Job-IsJobInfo = record {
    finish_finishes = as_finished-finished;
    finish_keeps_error = as_finished-error;
    finish_keeps_id = as_finished-id;
    finish_keeps_start = as_finished-start;
    error_sets = with_error-error;
    error_keeps_id = with_error-id;
    error_keeps_start = with_error-start;
    error_keeps_corpus = with_error-corpus;
    error_keeps_restarts = with_error-restarts;
  }

  -- `WithError` of a live attributes job makes an unfinished record of a finished one and loses
  -- the counts of what was processed, while it keeps the error that it is given.
  pub live_attrs_error_unfinishes :
      (t : ℕ) (e : Option Str) (j : LiveAttrsJobInfo V)
      → (LiveAttrs.with_error t e (LiveAttrs.as_finished t j)).finished ≡ false
  unfolding LiveAttrs.with_error
  live_attrs_error_unfinishes t e j = refl
