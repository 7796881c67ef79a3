-- ===== src/Jobs/Deps.antt =====
-- jobs/dependecies.go: which jobs wait for which. `JobsDeps` is a map from a job to its parents; a
-- method that mutates it returns the new map. `time.Now()` is an argument.
pub mod Graph
pub mod Circle
pub mod Acyclic
pub mod Waiting
use cnc_masm.Prelude.{
  ℕ, zero, suc, Bool, true, false, not, ◌&&◌, ◌||◌, Option, none, some, List, [], ◌∷◌, ◌++◌, map,
  Str, str_eq, str_mem, StrMap, lookup, insert, has_key, if◌then◌else◌, or_else, any, length,
}

pub data DepsError : Type 0 where
  no_such_job_dependency circular_job_dependency duplicate_dependency : DepsError

pub record DepInfo : Type 0 where
  pub created_at : ℕ
  pub job_id : Str
  pub finished : Bool
  pub has_error : Bool

abbrev pub JobsDeps : Type 0
JobsDeps = StrMap (List DepInfo)

-- `jd[jobID]`, the nil slice for a missing key.
unfoldable pub parents_of : JobsDeps → Str → List DepInfo
parents_of jd k = or_else (lookup k jd) []

abbrev pub ids : List DepInfo → List Str
ids = map (λ d. d.job_id)

unfoldable pub get_parent_ids : JobsDeps → Str → List Str
unfolding parents_of
get_parent_ids jd k = ids (parents_of jd k)

-- The loop of `findCircle`; `none` stands for a loop that is not over when its rounds are.
unfoldable pub circle_loop : JobsDeps → ℕ → List Str → List Str → Option Bool
circle_loop jd n visited [] = some false
circle_loop jd zero visited (curr ∷ queue) = none
circle_loop jd (suc n) visited (curr ∷ queue) =
    let rest = circle_loop jd n (curr ∷ visited) (queue ++ get_parent_ids jd curr) in
    if str_mem curr visited then some true else rest

abbrev pub all_parent_ids : JobsDeps → List Str
all_parent_ids [] = []
all_parent_ids ((k, v) ∷ jd) = ids v ++ all_parent_ids jd

-- A round for each entry of the map's slices, one for the job and one to find a repetition.
unfoldable pub find_circle : JobsDeps → Str → Option Bool
unfolding circle_loop get_parent_ids
find_circle jd k = circle_loop jd (suc (suc (length (all_parent_ids jd)))) [] (k ∷ [])

abbrev pub new_dep : ℕ → Str → DepInfo
new_dep now parent = record {
  created_at = now;
  job_id = parent;
  finished = false;
  has_error = false;
}

-- `jd[jobID] = jd[jobID][:len(jd[jobID])-1]`
abbrev pub without_last : {A : Type 0} → List A → List A
without_last [] = []
without_last (x ∷ []) = []
without_last (x ∷ y ∷ r) = x ∷ without_last (y ∷ r)

-- The end of `Add`, after the new parent was appended.
unfoldable pub settle : JobsDeps → Str → Option Bool → Option (Option DepsError × JobsDeps)
unfolding parents_of
settle jd k none = none
settle jd k (some false) = some (none, jd)
settle jd k (some true) =
    some (some circular_job_dependency, insert k (without_last (parents_of jd k)) jd)

-- The map with an entry for the job.
unfoldable pub with_entry : JobsDeps → Str → JobsDeps
with_entry jd k = if has_key k jd then jd else insert k [] jd

unfoldable pub with_parent : ℕ → JobsDeps → Str → Str → JobsDeps
unfolding parents_of
with_parent now jd k parent = insert k (parents_of jd k ++ new_dep now parent ∷ []) jd

-- The outer `none` stands for a `findCircle` that does not end; see `Circle`.
unfoldable pub add : ℕ → Str → Str → JobsDeps → Option (Option DepsError × JobsDeps)
unfolding with_entry
add now k parent jd =
    let jd₁ = with_entry jd k in
    let jd₂ = with_parent now jd₁ k parent in
    if str_mem parent (get_parent_ids jd₁ k)
    then some (some duplicate_dependency, jd₁)
    else settle jd₂ k (find_circle jd₂ k)

mark_finished : Str → Bool → DepInfo → DepInfo
mark_finished parent failed d =
    if str_eq d.job_id parent then record d { finished = true; has_error = failed } else d

-- The result of `SetParentFinished` is an error whether or not a parent was found.
unfoldable pub set_parent_finished : Str → Bool → JobsDeps → DepsError × JobsDeps
unfolding mark_finished
set_parent_finished parent failed jd =
    (no_such_job_dependency, map (λ (k, v). (k, map (mark_finished parent failed) v)) jd)

abbrev pub waits_on : List DepInfo → Bool
waits_on v = any (λ d. not d.finished) v && not (any (λ d. d.has_error) v)

-- `none` stands for `ErrorNoSuchJobDependency`.
unfoldable pub must_wait : JobsDeps → Str → Option Bool
must_wait jd k = elim (lookup k jd) [ none ↦ none | some v ↦ some (waits_on v) ]

unfoldable pub has_failed_parent : JobsDeps → Str → Option Bool
has_failed_parent jd k = elim (lookup k jd) [
  | none ↦ none
  | some v ↦ some (any (λ d. d.has_error) v)
]
