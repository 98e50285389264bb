-- ===== src/Jobs/Registry.antt =====
-- `CommandJobRegistry` of command_job.rs: the entries of jobs. Each operation under the lock is one step
-- that answers with the new entries; the clock and fresh identifiers are arguments.
use remote_deck.Base.{
  pos, ℕ, zero, suc, ◌+◌, min, Bool, true, false, ◌||◌, Option, none, some, [], ◌∷◌, ◌++◌, Text,
  codes, Map, insert, remove, ltb, leb, if◌then◌else◌, length, byte_len, ok, err,
}
use remote_deck.Session.Types.{u64_max}
use remote_deck.Jobs.Types.{
  CommandJobState, CommandJob, is_terminal, PreparedCommand, PtyCommandPlan, process, JobResult,
  max_pending_jobs, max_retained_jobs, max_retained_output_bytes,
}

-- `cancel` is the value of the watch channel of the job.
pub record RegistryEntry : Type 0 where
  pub job : CommandJob
  pub sequence : ℕ
  pub cancel : Bool
  pub stdout_truncated : Bool
  pub stderr_truncated : Bool

pub record Jobs : Type 0 where
  pub entries : Map RegistryEntry
  pub next_sequence : ℕ

pub data OutputStream : Type 0 where
  stdout stderr : OutputStream

unfoldable pub revise_command_job : CommandJob → CommandJob
revise_command_job job = record job { revision = min (job.revision + 1) u64_max }

abbrev pub same_state : CommandJobState → CommandJobState → Bool
same_state CommandJobState.queued CommandJobState.queued = true
same_state CommandJobState.running CommandJobState.running = true
same_state CommandJobState.cancelling CommandJobState.cancelling = true
same_state CommandJobState.completed CommandJobState.completed = true
same_state CommandJobState.failed CommandJobState.failed = true
same_state CommandJobState.cancelled CommandJobState.cancelled = true
same_state _ _ = false

-- A job whose process may be alive.
abbrev pub is_live : CommandJobState → Bool
is_live CommandJobState.running = true
is_live CommandJobState.cancelling = true
is_live _ = false

abbrev text_bytes : Option Text → ℕ
text_bytes none = 0
text_bytes (some text) = byte_len text

unfoldable pub retained_output_bytes : Map RegistryEntry → ℕ
unfolding is_terminal byte_len
retained_output_bytes [] = 0
retained_output_bytes ((id, entry) ∷ entries) =
    let rest = retained_output_bytes entries in
    if is_terminal entry.job.state
    then min
        (rest + byte_len entry.job.stdout + byte_len entry.job.stderr + text_bytes entry.job.error)
        u64_max
    else rest

-- `min_by_key` on the sequence: the first of the least.
abbrev older : Text × RegistryEntry → Option (Text × ℕ) → Option (Text × ℕ)
older (id, entry) none = some (id, entry.sequence)
older (id, entry) (some (other, least)) =
    if leb entry.sequence least then some (id, entry.sequence) else some (other, least)

unfoldable pub oldest_job : Map RegistryEntry → Option (Text × ℕ)
unfolding is_terminal
oldest_job [] = none
oldest_job ((id, entry) ∷ entries) =
    let rest = oldest_job entries in
    if is_terminal entry.job.state then older (id, entry) rest else rest

-- On fuel: each round removes an entry.
unfoldable pub prune_from : ℕ → ℕ → Map RegistryEntry → Map RegistryEntry
unfolding retained_output_bytes oldest_job
prune_from zero limit entries = entries
prune_from (suc fuel) limit entries = elim (oldest_job entries) [
  | none ↦ entries
  | some (id, _) ↦
      let rest = prune_from fuel limit (remove id entries) in
      if leb limit (length entries) || ltb max_retained_output_bytes (retained_output_bytes entries)
      then rest
      else entries
]

unfoldable pub prune_terminal_jobs : ℕ → Map RegistryEntry → Map RegistryEntry
unfolding prune_from
prune_terminal_jobs limit entries = prune_from (length entries) limit entries

unfoldable pub active_jobs : Map RegistryEntry → ℕ
unfolding is_terminal
active_jobs [] = 0
active_jobs ((id, entry) ∷ entries) =
    let rest = active_jobs entries in if is_terminal entry.job.state then rest else rest + 1

abbrev queued_job : Text → PreparedCommand → CommandJob
queued_job id prepared = record {
  id = id;
  revision = 1;
  command_id = prepared.command_id;
  host_id = prepared.host.id;
  name = prepared.name;
  command = prepared.display_command;
  risk = prepared.risk;
  state = CommandJobState.queued;
  stdout = [];
  stderr = [];
  exit_code = none;
  error = none;
  started_at = none;
  finished_at = none;
}

abbrev handed_off_job : Text → ℕ → Text → PtyCommandPlan → CommandJob
handed_off_job id now session_id plan = record {
  id = id;
  revision = 1;
  command_id = plan.command_id;
  host_id = plan.host_id;
  name = plan.name;
  command = plan.command;
  risk = plan.risk;
  state = CommandJobState.completed;
  stdout = codes "Opened interactive terminal session " ++ session_id ++ codes ".";
  stderr = [];
  exit_code = some (pos 0);
  error = none;
  started_at = some now;
  finished_at = some now;
}

-- A new entry with the next sequence number.
abbrev registered : CommandJob → Map RegistryEntry → Jobs → Jobs
registered job entries jobs = record {
  entries =
      insert job.id
        (record {
          job = job;
          sequence = jobs.next_sequence;
          cancel = false;
          stdout_truncated = false;
          stderr_truncated = false;
        })
        entries;
  next_sequence = min (jobs.next_sequence + 1) u64_max;
}

-- The step of `start_process` under the lock; the process is started after it.
unfoldable pub start_process : Text → PreparedCommand → Jobs → Jobs × JobResult CommandJob
unfolding prune_terminal_jobs active_jobs
start_process id prepared jobs =
    let entries = prune_terminal_jobs max_retained_jobs jobs.entries in
    if leb max_pending_jobs (active_jobs entries)
    then (record jobs { entries = entries }, err process)
    else (registered (queued_job id prepared) entries jobs, ok (queued_job id prepared))

unfoldable pub record_pty_handoff :
    Text → ℕ → Text → PtyCommandPlan → Jobs → Jobs × JobResult CommandJob
unfolding prune_terminal_jobs
record_pty_handoff id now session_id plan jobs =
    let job = handed_off_job id now session_id plan in
    (registered job (prune_terminal_jobs max_retained_jobs jobs.entries) jobs, ok job)
