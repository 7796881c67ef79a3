-- ===== src/Jobs/Table/Updates.antt =====
-- What the updates of a job leave in the table.
use cnc_masm.Prelude.{
  ℕ, subst, ◌≡◌, refl, true, false, not, ◌&&◌, Option, none, some, Str, str_eq, str_eq_refl, StrMap,
  lookup, insert, lookup-insert, if◌then◌else◌, is_some, arith,
}
use cnc_masm.Jobs.Info.{GeneralJobInfo, IsJobInfo}
use cnc_masm.Jobs.Table.{value, panic, update_job, finish_job}

-- The first of two errors that is not nil.
abbrev pub first_error : Option Str → Option Str → Option Str
first_error none old = old
first_error (some e) old = some e

module _ {J : Type 0} (g : GeneralJobInfo J) where
  -- A job that is not in the table any more makes every update of it a panic.
  pub missing_job_panics :
      (now : ℕ) (item_id : Str) (upd : J) (m : StrMap J)
      → lookup item_id m ≡ none
      → (update_job g now item_id upd m ≡ panic) × (finish_job g now item_id m ≡ panic)
  unfolding update_job finish_job
  missing_job_panics now item_id upd m e = (rw e refl, rw e refl)

  -- The table after an update: the entry of the job has the error `e`, is finished or not as `f`
  -- says, and the other entries are as they were.
  pub record Holds (item_id : Str) (e : Option Str) (m m' : StrMap J) : Type 0 where
    pub entry : J
    pub at_item : lookup item_id m' ≡ some entry
    pub error : g.get_error entry ≡ e
    pub others : (k : Str) → str_eq item_id k ≡ false → lookup k m' ≡ lookup k m

  insert-Holds :
      (item_id : Str) (m : StrMap J) (j : J) → Holds item_id (g.get_error j) m (insert item_id j m)
  insert-Holds item_id m j = record {
    entry = j;
    at_item = ground (arith, lookup-insert item_id item_id j m, str_eq_refl item_id);
    error = refl;
    others = λ k e. ground (arith, lookup-insert item_id k j m);
  }

module _ {J : Type 0} (g : GeneralJobInfo J) (laws : IsJobInfo g) where
  merged : ℕ → J → J → J
  merged now upd curr =
      if is_some (g.get_error curr) && not (is_some (g.get_error upd))
      then g.with_error now (g.get_error curr) upd
      else upd

  merged_error :
      (now : ℕ) (upd curr : J)
      → g.get_error (merged now upd curr) ≡ first_error (g.get_error upd) (g.get_error curr)
  unfolding merged
  merged_error now upd curr = ground (arith, laws.error_sets now (g.get_error curr) upd)

  -- An update of a job of the table succeeds, leaves the entry with the error of the update, or the
  -- one that it had if the update comes without, and changes no other entry.
  pub update_job-keeps_error :
      (now : ℕ) (item_id : Str) (upd curr : J) (m : StrMap J)
      → lookup item_id m ≡ some curr
      → (m' : StrMap J) × (update_job g now item_id upd m ≡ value m')
        × Holds g item_id (first_error (g.get_error upd) (g.get_error curr)) m m'
  unfolding update_job merged insert-Holds
  update_job-keeps_error now item_id upd curr m e = (
    insert item_id (merged now upd curr) m,
    rw e refl,
    subst (λ x. Holds g item_id x m (insert item_id (merged now upd curr) m))
        (merged_error now upd curr) (insert-Holds g item_id m (merged now upd curr)),
  )

  -- An update that comes with an error replaces the entry.
  pub update_job-replaces :
      (now : ℕ) (item_id e : Str) (upd curr : J) (m : StrMap J)
      → lookup item_id m ≡ some curr
      → g.get_error upd ≡ some e
      → (update_job g now item_id upd m ≡ value (insert item_id upd m))
        × (lookup item_id (insert item_id upd m) ≡ some upd)
  unfolding update_job insert-Holds
  update_job-replaces now item_id e upd curr m at err =
      (rw at (ground arith), (insert-Holds g item_id m upd).at_item)

  -- The end of a job of the table succeeds, makes its entry finished, keeps its error, and changes
  -- no other entry.
  pub finish_job-finishes :
      (now : ℕ) (item_id : Str) (curr : J) (m : StrMap J)
      → lookup item_id m ≡ some curr
      → (m' : StrMap J) × (finish_job g now item_id m ≡ value m')
        × (h : Holds g item_id (g.get_error curr) m m') × (g.is_finished h.entry ≡ true)
  unfolding finish_job insert-Holds
  finish_job-finishes now item_id curr m e = (
    insert item_id (g.as_finished now curr) m,
    rw e refl,
    record {
      entry = g.as_finished now curr;
      at_item = (insert-Holds g item_id m (g.as_finished now curr)).at_item;
      error = laws.finish_keeps_error now curr;
      others = (insert-Holds g item_id m (g.as_finished now curr)).others;
    },
    laws.finish_finishes now curr,
  )
