-- ===== src/Jobs/Work.antt =====
-- The changes of one job in command_job.rs: cancellation, start, output and end.
use remote_deck.Base.{
  ℤ, ℕ, ◌+◌, ◌-◌, Bool, true, false, ◌&&◌, ◌||◌, not, Option, none, some, List, [], ◌∷◌, ◌++◌, Text,
  codes, Map, get, insert, leb, if◌then◌else◌, is_empty, is_some_and, length, byte_len, utf8_char,
  from_utf8_lossy, ok, err, is_none,
}
use remote_deck.Jobs.Types.{
  CommandJobState, CommandJob, is_terminal, unknown_job, JobResult, command_output_limit,
  max_retained_jobs,
}
use remote_deck.Jobs.Registry.{
  RegistryEntry, OutputStream, stdout, stderr, revise_command_job, same_state, is_live,
  prune_terminal_jobs,
}

abbrev pub output_truncated_marker : Text
output_truncated_marker = 10 ∷ codes "[RemoteDeck: output truncated at 1 MiB]"

abbrev pub char_len : ℕ → ℕ
char_len c = length (utf8_char c)

-- The text up to the last boundary of a character within so many bytes.
unfoldable pub truncate_utf8 : ℕ → Text → Text
unfolding utf8_char
truncate_utf8 max_bytes [] = []
truncate_utf8 max_bytes (c ∷ value) =
    let rest = truncate_utf8 (max_bytes - char_len c) value in
    if leb (char_len c) max_bytes then c ∷ rest else []

unfoldable pub bounded_error : Text → Text
unfolding truncate_utf8
bounded_error value = truncate_utf8 4096 value

-- The new target, the new mark of truncation, and whether anything changed.
unfoldable pub append_bounded : Text → Bool → List ℕ → Text × Bool × Bool
unfolding from_utf8_lossy truncate_utf8 byte_len
append_bounded target truncated bytes =
    let value = from_utf8_lossy bytes in
    let content_limit : ℕ = command_output_limit - byte_len output_truncated_marker in
    let kept = truncate_utf8 content_limit target in
    if is_empty bytes || truncated
    then (target, truncated, false)
    else if leb (byte_len target + byte_len value) command_output_limit
    then (target ++ value, truncated, true)
    else (
      kept ++ truncate_utf8 (content_limit - byte_len kept) value ++ output_truncated_marker,
      true,
      true,
    )

-- A change of the entry of a job, if there is one and the test holds.
abbrev pub on_entry :
    Text
    → (RegistryEntry → Bool)
    → (RegistryEntry → RegistryEntry)
    → Map RegistryEntry
    → Map RegistryEntry
on_entry id test change entries = elim (get id entries) [
  | none ↦ entries
  | some entry ↦ if test entry then insert id (change entry) entries else entries
]

abbrev cancelled_entry : ℕ → RegistryEntry → RegistryEntry
cancelled_entry now entry = record entry {
  cancel = true;
  job =
      if same_state entry.job.state CommandJobState.queued
      then revise_command_job
          (record (entry.job) { state = CommandJobState.cancelled; finished_at = some now })
      else revise_command_job (record (entry.job) { state = CommandJobState.cancelling });
}

abbrev is_cancellable : RegistryEntry → Bool
is_cancellable entry =
    not (is_terminal entry.job.state) && not (same_state entry.job.state CommandJobState.cancelling)

unfoldable pub cancel : Text → ℕ → Map RegistryEntry → Map RegistryEntry × JobResult CommandJob
unfolding is_terminal revise_command_job
cancel id now entries = elim (get id entries) [
  | none ↦ (entries, err unknown_job)
  | some entry ↦
      if is_cancellable entry
      then (insert id (cancelled_entry now entry) entries, ok (cancelled_entry now entry).job)
      else (entries, ok entry.job)
]

unfoldable pub transition_running : Text → ℕ → Map RegistryEntry → Map RegistryEntry × Bool
unfolding revise_command_job
transition_running id now entries = elim (get id entries) [
  | none ↦ (entries, false)
  | some entry ↦
      if same_state entry.job.state CommandJobState.queued
      then (
        insert id
            (record entry {
              job =
                  revise_command_job
                    (record (entry.job) { state = CommandJobState.running; started_at = some now });
            })
            entries,
        true,
      )
      else (entries, false)
]

abbrev pub appended : OutputStream → List ℕ → RegistryEntry → RegistryEntry × Bool
appended stdout bytes entry =
    let (target, truncated, changed) =
      append_bounded entry.job.stdout entry.stdout_truncated bytes in
    (
      record entry { job = record (entry.job) { stdout = target }; stdout_truncated = truncated },
      changed,
    )
appended stderr bytes entry =
    let (target, truncated, changed) =
      append_bounded entry.job.stderr entry.stderr_truncated bytes in
    (
      record entry { job = record (entry.job) { stderr = target }; stderr_truncated = truncated },
      changed,
    )

abbrev pub revised : RegistryEntry → RegistryEntry
revised entry = record entry { job = revise_command_job entry.job }

unfoldable pub append_job_output :
    Text → OutputStream → List ℕ → Map RegistryEntry → Map RegistryEntry
unfolding append_bounded revise_command_job
append_job_output id stream bytes entries =
    on_entry id (λ entry. is_live entry.job.state && (appended stream bytes entry).1)
      (λ entry. revised (appended stream bytes entry).0) entries

abbrev now_cancelled : ℕ → RegistryEntry → RegistryEntry
now_cancelled now entry = record entry {
  job = revise_command_job (record (entry.job) {
    state = CommandJobState.cancelled;
    finished_at = if is_none entry.job.finished_at then some now else entry.job.finished_at;
  });
}

unfoldable pub finish_cancelled : Text → ℕ → Map RegistryEntry → Map RegistryEntry
unfolding revise_command_job prune_terminal_jobs
finish_cancelled id now entries = elim (get id entries) [
  | none ↦ entries
  | some entry ↦
      if same_state entry.job.state CommandJobState.cancelled && not (is_none entry.job.finished_at)
      then entries
      else prune_terminal_jobs max_retained_jobs (insert id (now_cancelled now entry) entries)
]

abbrev finished : CommandJobState → Option ℤ → Option Text → ℕ → RegistryEntry → RegistryEntry
finished state exit_code error now entry = record entry {
  job = revise_command_job (record (entry.job) {
    state = state;
    exit_code = exit_code;
    error = error;
    finished_at = some now;
  });
}

unfoldable pub finish_job :
    Text → CommandJobState → Option ℤ → Option Text → ℕ → Map RegistryEntry → Map RegistryEntry
unfolding revise_command_job prune_terminal_jobs
finish_job id state exit_code error now entries = elim (get id entries) [
  | none ↦ entries
  | some entry ↦
      if is_live entry.job.state
      then prune_terminal_jobs max_retained_jobs
          (insert id (finished state exit_code error now entry) entries)
      else entries
]

unfoldable pub finish_completed : Text → Option ℤ → ℕ → Map RegistryEntry → Map RegistryEntry
unfolding finish_job
finish_completed id exit_code now = finish_job id CommandJobState.completed exit_code none now

unfoldable pub finish_failed : Text → Text → Option ℤ → ℕ → Map RegistryEntry → Map RegistryEntry
unfolding finish_job bounded_error
finish_failed id error exit_code now =
    finish_job id CommandJobState.failed exit_code (some (bounded_error error)) now

unfoldable pub job_cancellation_requested : Text → Map RegistryEntry → Bool
job_cancellation_requested id entries = is_some_and (get id entries) (λ entry.
    same_state entry.job.state CommandJobState.cancelling
    || same_state entry.job.state CommandJobState.cancelled)
