-- ===== src/Jobs/Dispatch/Failures.antt =====
-- What the dependents of a job hear of its failure.
use cnc_masm.Prelude.{
  ℕ, ◌≡◌, refl, true, false, ◌||◌, Option, none, some, List, Str, lookup, insert, lookup-insert,
  str_eq, str_eq_refl, has_key, all, arith, ap, ◌∙◌, sym, [], ◌∷◌, ◌++◌,
}
use cnc_masm.Jobs.Queue.{ok}
use cnc_masm.Jobs.Queue.Chain.{Cell, Holds}
use cnc_masm.Jobs.Deps.{parents_of, must_wait, has_failed_parent, set_parent_finished}
use cnc_masm.Jobs.Deps.Waiting.{is_done, last_parent_unblocks}
use cnc_masm.Jobs.Info.{GeneralJobInfo, IsJobInfo}
use cnc_masm.Jobs.Table.{value}
use cnc_masm.Jobs.Table.Updates.{update_job-keeps_error, finish_job-finishes, update_job-replaces}
use cnc_masm.Jobs.Dispatch.{
  Actions, TableUpdate, dispatch, failed_parent_msg, update_job, finish_job, apply_update,
}
use cnc_masm.Jobs.Dispatch.Effect.{Fails, failure, dispatch-Fails}

module _ {F J : Type 0} (g : GeneralJobInfo J) where
  -- The table has the job as finished, with the error.
  pub record EndsWith (b : Actions F J) (item_id : Str) (e : Option Str) : Type 0 where
    pub entry : J
    pub at_item : lookup item_id b.job_list ≡ some entry
    pub finished : g.is_finished entry ≡ true
    pub error : g.get_error entry ≡ e

module _ {F J : Type 0} (g : GeneralJobInfo J) (laws : IsJobInfo g) where
  -- A job of the table that reported an error sends a last message without one and ends: the table
  -- shows it as finished with the error, but a job that has an entry in the dependencies and whose
  -- other parents are done neither waits any more nor has a failed parent.
  pub last_message_hides_error :
      (t₁ t₂ : ℕ) (a : Actions F J) (item_id k : Str) (curr last : J) (e : Str)
      → lookup item_id a.job_list ≡ some curr
      → g.get_error curr ≡ some e
      → g.get_error last ≡ none
      → has_key k a.job_deps ≡ true
      → all (λ d. str_eq d.job_id item_id || is_done d) (parents_of a.job_deps k) ≡ true
      → (b c : Actions F J) × (apply_update g t₁ (update_job item_id last) a ≡ value b)
        × (apply_update g t₂ (finish_job item_id (some last)) b ≡ value c)
        × EndsWith g c item_id (some e)
        × (must_wait c.job_deps k ≡ some false)
        × (has_failed_parent c.job_deps k ≡ some false)
  unfolding apply_update
  last_message_hides_error t₁ t₂ a item_id k curr last e at err none_last known others =
      let (m₁, e₁, h₁) = update_job-keeps_error g laws t₁ item_id last curr a.job_list at in
      let (m₂, e₂, h₂, fin) = finish_job-finishes g laws t₂ item_id h₁.entry m₁ h₁.at_item in
      let free = last_parent_unblocks a.job_deps k item_id known others in
      (
        record a { job_list = m₁ },
        record a { job_list = m₂; job_deps = (set_parent_finished item_id false a.job_deps).1 },
        rw e₁ refl,
        rw (e₂, none_last) refl,
        record {
          entry = h₂.entry;
          at_item = h₂.at_item;
          finished = fin;
          error = h₂.error ∙ h₁.error ∙ ground arith;
        },
        free.0,
        free.1,
      )

  -- The message that the dispatcher leaves.
  failed-EndsWith :
      (now t : ℕ) (a b : Actions F J) (c : Cell F J) (rest : List (Cell F J))
      → Fails g now a b c rest
      → let job = failure g now c.2 in
        (d : Actions F J) × (apply_update g t (update_job (g.get_id job) (g.as_finished now job)) b
          ≡ value d)
        × EndsWith g d (g.get_id c.2) (some (failed_parent_msg (g.get_id c.2)))
        × (d.job_deps ≡ a.job_deps)
  unfolding apply_update
  failed-EndsWith now t a b c rest f =
      let job = failure g now c.2 in
      let upd = g.as_finished now job in
      let at =
        ap (lookup (g.get_id job)) f.table
        ∙ ground (
          arith,
          lookup-insert (g.get_id job) (g.get_id job) job a.job_list,
          str_eq_refl (g.get_id job),
        ) in
      let err =
        laws.finish_keeps_error now job
        ∙ laws.error_sets now (some (failed_parent_msg (g.get_id c.2))) c.2 in
      let (e, at') =
        update_job-replaces g laws t (g.get_id job) (failed_parent_msg (g.get_id c.2)) upd job
          b.job_list at err in
      (
        record b { job_list = insert (g.get_id job) upd b.job_list },
        rw e refl,
        record {
          entry = upd;
          at_item =
              rw (sym (laws.error_keeps_id now (some (failed_parent_msg (g.get_id c.2))) c.2)) at';
          finished = laws.finish_finishes now job;
          error = err;
        },
        f.keeps.deps,
      )

  -- A round of the dispatcher with a job at the front whose parents have all ended, one of them with an
  -- error, leaves one message. When the table takes it, it shows the job as finished with the error
  -- that says so, but the map of dependencies is what it was before the round: every job waits, or
  -- does not, and has a failed parent, or has none, as if the job had not ended.
  pub failed_job_blocks_dependents :
      (now t : ℕ) (a : Actions F J) (c : Cell F J) (rest : List (Cell F J))
      → Holds a.job_queue (c ∷ rest)
      → must_wait a.job_deps (g.get_id c.2) ≡ some false
      → has_failed_parent a.job_deps (g.get_id c.2) ≡ some true
      → (b d : Actions F J) × (message : TableUpdate J) × (dispatch g now a ≡ ok b)
        × (b.pending ≡ a.pending ++ message ∷ [])
        × (apply_update g t message b ≡ value d)
        × EndsWith g d (g.get_id c.2) (some (failed_parent_msg (g.get_id c.2)))
        × (d.job_deps ≡ a.job_deps)
  failed_job_blocks_dependents now t a c rest h w f =
      let (b, e, fs) = dispatch-Fails g now a c rest h w f in
      let (d, e', ends, deps) = failed-EndsWith now t a b c rest fs in
      (b, d, _, e, fs.pending, e', ends, deps)
