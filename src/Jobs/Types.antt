-- ===== src/Jobs/Types.antt =====
-- The types and limits of command_job.rs.
use Prim.Native.String.{String}
use remote_deck.Base.{ℤ, ℕ, ◌*◌, Bool, true, false, Option, List, Text, Result}
use remote_deck.Model.{HostProfile, CommandRisk}

abbrev pub command_output_limit : ℕ
command_output_limit = 1024 * 1024

abbrev pub max_working_directory_bytes : ℕ
max_working_directory_bytes = 4096

abbrev pub max_pending_jobs : ℕ
max_pending_jobs = 128

abbrev pub max_retained_jobs : ℕ
max_retained_jobs = 512

abbrev pub max_retained_output_bytes : ℕ
max_retained_output_bytes = 16 * 1024 * 1024

pub record CommandRunRequest : Type 0 where
  pub host_id : Text
  pub command_id : Option Text
  pub command : Option Text
  pub working_directory : Option Text
  pub confirmation : Option Text

pub record CommandAnalysis : Type 0 where
  pub target_alias : Text
  pub display_command : Text
  pub working_directory : Option Text
  pub declared_risk : CommandRisk
  pub effective_risk : CommandRisk
  pub reasons : List String
  pub required_confirmation : Option Text

pub data CommandJobState : Type 0 where
  queued running cancelling completed failed cancelled : CommandJobState

unfoldable pub is_terminal : CommandJobState → Bool
is_terminal CommandJobState.completed = true
is_terminal CommandJobState.failed = true
is_terminal CommandJobState.cancelled = true
is_terminal _ = false

pub record CommandJob : Type 0 where
  pub id : Text
  pub revision : ℕ
  pub command_id : Option Text
  pub host_id : Text
  pub name : Text
  pub command : Text
  pub risk : CommandRisk
  pub state : CommandJobState
  pub stdout : Text
  pub stderr : Text
  pub exit_code : Option ℤ
  pub error : Option Text
  pub started_at : Option ℕ
  pub finished_at : Option ℕ

pub record PtyCommandPlan : Type 0 where
  pub host_id : Text
  pub command_id : Option Text
  pub name : Text
  pub command : Text
  pub working_directory : Option Text
  pub risk : CommandRisk

-- Without the messages, but with what a caller acts on.
pub data CommandJobError : Type 0 where
  invalid_request repository risk_analysis runtime_unavailable process unknown_job : CommandJobError
  confirmation_required confirmation_mismatch : CommandRisk → Text → CommandJobError
  requires_pty : PtyCommandPlan → CommandJobError

abbrev pub JobResult : Type 0 → Type 0
JobResult A = Result CommandJobError A

pub record ResolvedCommand : Type 0 where
  pub host : HostProfile
  pub command_id : Option Text
  pub name : Text
  pub command : Text
  pub working_directory : Option Text
  pub declared_risk : CommandRisk
  pub requires_pty : Bool
  pub confirmation_text : Option Text

pub record PreparedCommand : Type 0 where
  pub host : HostProfile
  pub command_id : Option Text
  pub name : Text
  pub display_command : Text
  pub risk : CommandRisk
