-- ===== src/Jobs/Info.antt =====
-- jobs/jobs.go: what a job record offers, as an interface with the part of its contract that all
-- implementations keep. Times are nanoseconds since the zero time, which is 0; an `error` is its
-- message, and `none` the nil error; `time.Now()` is an argument.
pub mod Kinds
pub mod General
pub mod Contract
use cnc_masm.Prelude.{ℕ, ◌≡◌, Bool, true, Option, none, some, Str, []}

-- jobs/utils.go: `ErrorToString`
unfoldable pub error_to_string : Option Str → Str
error_to_string none = []
error_to_string (some e) = e

pub record JobInfoCompact : Type 0 where
  pub id : Str
  pub corpus_id : Str
  pub type : Str
  pub start : ℕ
  pub update : ℕ
  pub finished : Bool
  pub ok : Bool

-- What `FullInfo` shows of every job; arguments and results are in `Extra`.
pub record FullInfo (Extra : Type 0) : Type 0 where
  pub id : Str
  pub type : Str
  pub corpus_id : Str
  pub start : ℕ
  pub update : ℕ
  pub finished : Bool
  pub error : Str
  pub ok : Bool
  pub num_restarts : ℕ
  pub extra : Extra

-- The interface `GeneralJobInfo`. `is_pointer` says whether the interface value holds a pointer to
-- a record or a record.
pub record GeneralJobInfo (J : Type 0) : Type 0 where
  pub get_id : J → Str
  pub get_type : J → Str
  pub get_start_dt : J → ℕ
  pub get_corpus : J → Str
  pub is_finished : J → Bool
  pub as_finished : ℕ → J → J
  pub get_num_restarts : J → ℕ
  pub get_error : J → Option Str
  pub with_error : ℕ → Option Str → J → J
  pub compact_version : J → JobInfoCompact
  pub is_pointer : J → Bool

-- What every implementation keeps of the contract in the comments of the interface.
pub record IsJobInfo {J : Type 0} (g : GeneralJobInfo J) : Type 0 where
  pub finish_finishes : (t : ℕ) (j : J) → g.is_finished (g.as_finished t j) ≡ true
  pub finish_keeps_error : (t : ℕ) (j : J) → g.get_error (g.as_finished t j) ≡ g.get_error j
  pub finish_keeps_id : (t : ℕ) (j : J) → g.get_id (g.as_finished t j) ≡ g.get_id j
  pub finish_keeps_start : (t : ℕ) (j : J) → g.get_start_dt (g.as_finished t j) ≡ g.get_start_dt j
  pub error_sets : (t : ℕ) (e : Option Str) (j : J) → g.get_error (g.with_error t e j) ≡ e
  pub error_keeps_id : (t : ℕ) (e : Option Str) (j : J) → g.get_id (g.with_error t e j) ≡ g.get_id j
  pub error_keeps_start :
      (t : ℕ) (e : Option Str) (j : J) → g.get_start_dt (g.with_error t e j) ≡ g.get_start_dt j
  pub error_keeps_corpus :
      (t : ℕ) (e : Option Str) (j : J) → g.get_corpus (g.with_error t e j) ≡ g.get_corpus j
  pub error_keeps_restarts :
      (t : ℕ) (e : Option Str) (j : J)
      → g.get_num_restarts (g.with_error t e j) ≡ g.get_num_restarts j
