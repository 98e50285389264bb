-- ===== src/Jobs/Execute.antt =====
-- `execute_job` of command_job.rs: the task that waits for a permit, runs a process and ends its job.
-- What the scheduler, the process and its pipes do is a list of events, and so is what other threads do
-- to the entries meanwhile; times are not modelled.
use remote_deck.Base.{
  ℤ, pos, negsuc, ◌+◌, ℕ, Bool, true, false, ◌&&◌, ◌||◌, not, Option, none, some, List, [], ◌∷◌,
  ◌++◌, Text, codes, Map, if◌then◌else◌, is_some, is_none, Result, ok, err, decimal,
}
use remote_deck.Jobs.Registry.{RegistryEntry, OutputStream, stdout, stderr}
use remote_deck.Jobs.Work.{
  transition_running, append_job_output, finish_cancelled, finish_completed, finish_failed,
  job_cancellation_requested,
}

abbrev Entries : Type 0
Entries = Map RegistryEntry

-- `None` for a process that a signal ended.
pub record ProcessExit : Type 0 where
  pub success : Bool
  pub code : Option ℤ

-- The end of the first `select!`: the watch channel changed or was closed, or the semaphore answered.
pub data Admission : Type 0 where
  cancel_changed : (closed value : Bool) → Admission
  permitted scheduler_closed : Admission

-- What wakes the loop. A `kill_error` is the failure of `start_kill`.
pub data Poll : Type 0 where
  cancel_polled : (closed value : Bool) → (kill_error : Option Text) → Poll
  exited : Result Text ProcessExit → Poll
  piped : OutputStream → List ℕ → Poll
  pipe_failed : OutputStream → (message : Text) → (kill_error : Option Text) → Poll
  pipes_closed deadline : Poll
  meanwhile : (Map RegistryEntry → Map RegistryEntry) → Poll

pub record Loop : Type 0 where
  pub status : Option (Result Text ProcessExit)
  pub pipes_open : Bool
  pub cancellation_seen : Bool
  pub cancellation_failure : Option Text
  pub pipe_error : Option Text
  pub broken_off : Bool

abbrev pub first_loop : Loop
first_loop = record {
  status = none;
  pipes_open = true;
  cancellation_seen = false;
  cancellation_failure = none;
  pipe_error = none;
  broken_off = false;
}

unfoldable pub is_over : Loop → Bool
is_over l = l.broken_off || (is_some l.status && not l.pipes_open)

-- `Option::get_or_insert_with`.
abbrev or_insert : Option Text → Text → Option Text
or_insert none text = some text
or_insert (some old) text = some old

-- A failure to kill replaces an earlier one, or is kept only when it is the first.
abbrev replace_kill : Option Text → Option Text → Option Text
replace_kill old none = old
replace_kill old (some text) = some text

abbrev note_kill : Option Text → Option Text → Option Text
note_kill old none = old
note_kill old (some text) = or_insert old text

unfoldable pub stream_name : OutputStream → Text
stream_name stdout = codes "stdout"
stream_name stderr = codes "stderr"

-- A branch of the loop's `select!`; one whose guard fails is not taken.
unfoldable pub wake : Text → Poll → Loop → Map RegistryEntry → Loop × Map RegistryEntry
unfolding stream_name
wake id (cancel_polled closed value kill_error) l entries =
    if l.cancellation_seen
    then (l, entries)
    else if closed
    then (record l { cancellation_seen = true }, entries)
    else if value
    then (
      record l {
        cancellation_seen = true;
        cancellation_failure = replace_kill l.cancellation_failure kill_error;
      },
      entries,
    )
    else (l, entries)
wake id (exited result) l entries =
    if is_none l.status then (record l { status = some result }, entries) else (l, entries)
wake id (piped stream bytes) l entries =
    if l.pipes_open then (l, append_job_output id stream bytes entries) else (l, entries)
wake id (pipe_failed stream message kill_error) l entries =
    if l.pipes_open
    then (
      record l {
        pipe_error =
            or_insert l.pipe_error (stream_name stream ++ codes " reader failed: " ++ message);
        cancellation_failure = note_kill l.cancellation_failure kill_error;
      },
      entries,
    )
    else (l, entries)
wake id pipes_closed l entries =
    if l.pipes_open then (record l { pipes_open = false }, entries) else (l, entries)
wake id deadline l entries =
    if l.cancellation_seen
    then (
      record l {
        broken_off = true;
        cancellation_failure =
            or_insert l.cancellation_failure
              (codes "owned command process or output pipes did not close within 5 seconds");
      },
      entries,
    )
    else if is_some l.pipe_error
    then (record l { broken_off = true }, entries)
    else (l, entries)
wake id (meanwhile others) l entries = (l, others entries)

-- The loop over what wakes it; `none` while it still waits.
unfoldable pub supervise :
    Text → List Poll → Loop → Map RegistryEntry → Option (Loop × Map RegistryEntry)
unfolding wake is_over
supervise id [] l entries = if is_over l then some (l, entries) else none
supervise id (poll ∷ polls) l entries =
    let next = wake id poll l entries in
    let rest = supervise id polls next.0 next.1 in if is_over l then some (l, entries) else rest

-- `exit_code` of the status.
unfoldable pub exit_code : Option (Result Text ProcessExit) → Option ℤ
exit_code (some (ok status)) = status.code
exit_code _ = none

abbrev shown_code : Option ℤ → Text
shown_code none = codes "unknown"
shown_code (some (pos code)) = decimal code
shown_code (some (negsuc code)) = codes "-" ++ decimal (code + 1)

unfoldable pub end_of_status :
    Text → ℕ → Option (Result Text ProcessExit) → Map RegistryEntry → Map RegistryEntry
unfolding decimal
end_of_status id now none entries =
    finish_failed id (codes "command process ended without an exit status") none now entries
end_of_status id now (some (err error)) entries = finish_failed id error none now entries
end_of_status id now (some (ok status)) entries =
    if status.success
    then finish_completed id status.code now entries
    else finish_failed id (codes "remote command exited with code " ++ shown_code status.code)
        status.code now entries

-- After the loop.
unfoldable pub conclude : Text → ℕ → Loop → Map RegistryEntry → Map RegistryEntry
unfolding exit_code end_of_status job_cancellation_requested
conclude id now l entries =
    if l.cancellation_seen || job_cancellation_requested id entries
    then elim l.cancellation_failure [
      | some error ↦ finish_failed id error (exit_code l.status) now entries
      | none ↦ finish_cancelled id now entries
    ]
    else elim l.pipe_error [
      | some error ↦ finish_failed id error (exit_code l.status) now entries
      | none ↦ end_of_status id now l.status entries
    ]

-- The end of a loop that has ended.
abbrev concluded : Text → ℕ → Option (Loop × Map RegistryEntry) → Option (Map RegistryEntry)
concluded id now none = none
concluded id now (some (l, entries)) = some (conclude id now l entries)

-- With a permit: `spawn_error` is the failure of starting the process.
unfoldable pub run_process :
    Text → ℕ → Option Text → List Poll → Map RegistryEntry → Option (Map RegistryEntry)
unfolding transition_running supervise conclude
run_process id now spawn_error polls entries =
    let (running, started) = transition_running id now entries in
    if not started then some entries else elim spawn_error [
      | some error ↦ some (finish_failed id error none now running)
      | none ↦ concluded id now (supervise id polls first_loop running)
    ]

-- `early` is the value of the watch channel when the task starts.
unfoldable pub execute_job :
    Text
    → ℕ
    → (early : Bool) → Admission
    → Option Text
    → List Poll
    → Map RegistryEntry
    → Option (Map RegistryEntry)
unfolding run_process
execute_job id now early admission spawn_error polls entries =
    if early then some (finish_cancelled id now entries) else elim admission [
      | cancel_changed closed value ↦
          if closed || value then some (finish_cancelled id now entries) else some entries
      | permitted ↦ run_process id now spawn_error polls entries
      | scheduler_closed ↦
          some (finish_failed id (codes "command scheduler closed") none now entries)
    ]
