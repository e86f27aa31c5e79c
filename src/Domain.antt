-- ===== src/Domain.antt =====
-- The entities of src/domain: trigger/trigger.go, action/action.go, group/group.go and
-- recurfile/recurfile.go. A status is a string, as in the source; a time is the number of
-- nanoseconds since Go's zero time, so that 0 is the zero time; a duration is a number of nanoseconds.
use recur.Prelude.{ℕ, String, List}
use recur.Prelude.Dict.{Dict}
use recur.Prelude.Int.{ℤ}
use recur.Config.{Fields}
use recur.Recurfile.{SecretDef}

abbrev pub Status : Type 0
Status = String

abbrev pub status_active : Status
status_active = "active"

abbrev pub status_suspended : Status
status_suspended = "suspended"

abbrev pub status_error : Status
status_error = "error"

-- Trigger
pub record Trigger : Type 0 where
  pub id : String
  pub type : String
  pub name : String
  pub group_id : String
  pub group_name : String
  pub recurfile_id : String
  pub recurfile_path : String
  pub plugin_id : String
  pub options : Fields
  pub status : Status
  pub error_count : ℤ
  pub error_threshold : ℤ
  pub last_fired : ℕ
  pub concurrency_mode : String
  pub max_queue_size : ℤ
  pub debounce : ℤ

-- Action
pub record Action : Type 0 where
  pub id : String
  pub type : String
  pub name : String
  pub group_id : String
  pub group_name : String
  pub trigger_id : String
  pub recurfile_id : String
  pub recurfile_path : String
  pub plugin_id : String
  pub options : Fields
  pub status : Status
  pub error_count : ℤ
  pub error_threshold : ℤ
  pub last_executed : ℕ

-- Group
pub record Group : Type 0 where
  pub id : String
  pub name : String
  pub recurfile_id : String
  pub trigger_ids : List String
  pub action_ids : List String
  pub options : Fields
  pub aliases : Dict String String

-- Recurfile
pub record Recurfile : Type 0 where
  pub id : String
  pub file_path : String
  pub groups : List String
  pub secrets : List SecretDef
