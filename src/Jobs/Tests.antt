-- ===== src/Jobs/Tests.antt =====
-- The theorems on command jobs at concrete runs.
use remote_deck.Base.{
  ◌≡◌, ◌≤◌, ◌++◌, refl, true, false, none, some, List, [], ◌∷◌, Text, codes, Map, get,
  map_operations, ok, arith, byte_len, trim, text_eq, trim_matches, drop_while, is_whitespace,
  as_bytes, utf8_char,
}
use remote_deck.Model.{HostProfile, AuthMethod, default_advanced, l1}
use remote_deck.Base.{
  to_ascii_lower, split_on, split_once, split_whitespace, last_or, strip_prefix, is_control,
  is_ascii_alphanumeric,
}
use remote_deck.Risk.Words.{is_environment_assignment, executable_basename}
use remote_deck.Risk.Programs.{is_word_byte}
use remote_deck.Risk.Findings.{findings}
use remote_deck.Risk.ReadOnly.{
  is_read_only_command, is_read_only_segment, split_shell_segments, program_words,
}
use remote_deck.Risk.Analysis.{
  RiskAnalysis, rank, analyze_command, validate_command, validate_confirmation_text, requirement,
  detect, note, push_reason,
}
use remote_deck.Jobs.Quote.{in_directory, shell_path}
use remote_deck.Jobs.Checks.{risk_level, command_risk, validate_command_text}
use remote_deck.Jobs.Prepare.{
  analyze_resolved_command, enforce_command_confirmation, l2_confirmation,
}
use remote_deck.Jobs.Types.{ResolvedCommand, PreparedCommand, CommandJobState, is_terminal}
use remote_deck.Jobs.Quote.{posix_quote, escape_quotes, read_word, outside, posix_quote_reads}
use remote_deck.Jobs.Prepare.{prepare_run}
use remote_deck.Jobs.Confirmed.{IsConfirmed, prepare_run_ok}
use remote_deck.Jobs.Registry.{
  RegistryEntry, Jobs, OutputStream, start_process, prune_terminal_jobs, prune_from, oldest_job,
  active_jobs, retained_output_bytes, revise_command_job,
}
use remote_deck.Jobs.Work.{cancel, transition_running}
use remote_deck.Jobs.Execute.{
  Poll, cancel_polled, exited, piped, pipes_closed, permitted, ProcessExit, execute_job,
}
use remote_deck.HostOperation
use remote_deck.Jobs.Run.{run_resolved, with_host_operation}
use remote_deck.Jobs.Started.{IsRegistered, Keeps, run_resolved_ok}
use remote_deck.Jobs.Ends.{Settled}
use remote_deck.Jobs.Task.{execute_job_settles}
use remote_deck.Jobs.Steps.{step, run_steps, no_jobs, starts_process, cancels, runs, appends}
use remote_deck.Jobs.Bounds.{IsWithin, run_steps-IsWithin}
use remote_deck.Jobs.Graph.{Follows, step-Follows}

-- A shell reads `it's` back from its quotes.
quoted : posix_quote (codes "it's") ≡ codes "'it'\\''s'"
unfolding posix_quote escape_quotes
quoted = refl

posix_quote_reads_example :
    read_word outside (posix_quote (codes "it's; rm -rf $HOME") ++ (codes " " ++ codes "&& ls"))
    ≡ some (codes "it's; rm -rf $HOME", codes "&& ls")
posix_quote_reads_example = posix_quote_reads (codes "it's; rm -rf $HOME") (codes "&& ls")

abbrev box : HostProfile
box = record {
  schema_version = 2;
  id = codes "h1";
  alias = codes "box";
  hostname = codes "10.0.0.5";
  port = 22;
  username = codes "ann";
  auth_method = AuthMethod.interactive;
  identity_file = none;
  proxy_jump = none;
  default_workspace = codes "~";
  groups = [];
  advanced = default_advanced;
  monitor_enabled = true;
  created_at = 1;
  updated_at = 2;
}

abbrev prepared : PreparedCommand
prepared = record {
  host = box;
  command_id = none;
  name = codes "Ad hoc command";
  display_command = codes "make";
  risk = l1;
}

-- `make` is a change of a declared risk L1, which the alias of the host confirms.
abbrev resolved : ResolvedCommand
resolved = record {
  host = box;
  command_id = none;
  name = codes "Ad hoc command";
  command = codes "make";
  working_directory = none;
  declared_risk = l1;
  requires_pty = false;
  confirmation_text = none;
}

checked : Unit {0}
unfolding analyze_command validate_command validate_confirmation_text requirement detect note
    push_reason findings is_read_only_command is_read_only_segment split_shell_segments
    program_words is_environment_assignment executable_basename trim split_on split_once
    split_whitespace trim_matches last_or strip_prefix byte_len is_control to_ascii_lower
    is_word_byte is_ascii_alphanumeric prepare_run analyze_resolved_command
    enforce_command_confirmation in_directory shell_path posix_quote escape_quotes risk_level
    command_risk validate_command_text text_eq drop_while is_whitespace
checked = tt

prepare_run_ok_example :
    (a : RiskAnalysis) × (analyze_command
        (codes "make")
        (risk_level l1)
        (some (l2_confirmation resolved))
      ≡ ok a)
    × (l1 ≡ command_risk a.effective_risk)
    × (rank (risk_level l1) ≤ rank a.effective_risk)
    × IsConfirmed resolved a.effective_risk (some (codes " box "))
    × (false ≡ false)
    × (codes "make" ≡ in_directory (codes "make") none)
unfolding checked
prepare_run_ok_example = prepare_run_ok resolved (some (codes " box ")) prepared refl

jobs : Unit {0}
unfolding step run_steps start_process prune_terminal_jobs prune_from oldest_job active_jobs
    retained_output_bytes revise_command_job cancel transition_running is_terminal map_operations
    byte_len as_bytes utf8_char
jobs = tt

abbrev j1 : Text
j1 = codes "j1"

abbrev one_job : Jobs
one_job = run_steps no_jobs (starts_process j1 prepared ∷ [])

-- The process prints, is asked to stop, and exits.
abbrev polls : List Poll
polls = piped OutputStream.stdout (79 ∷ 75 ∷ []) ∷ cancel_polled false true none ∷ []

abbrev killed : ProcessExit
killed = record { success = false; code = none }

execute_job_settles_example :
    (result : Map RegistryEntry) × (execute_job j1 5 false permitted none
        (polls ++ exited (ok killed) ∷ pipes_closed ∷ [])
        one_job.entries
      ≡ some result)
    × Settled j1 result
unfolding jobs
execute_job_settles_example =
    execute_job_settles j1 5 false permitted none polls (ok killed) one_job.entries refl
      (tt, (tt, tt)) refl

run_steps-IsWithin_example :
    IsWithin j1
      (run_steps no_jobs (
        starts_process j1 prepared
        ∷ runs j1 3
        ∷ appends j1 OutputStream.stdout (79 ∷ 75 ∷ [])
        ∷ [])).entries
run_steps-IsWithin_example =
    run_steps-IsWithin
      (starts_process j1 prepared ∷ runs j1 3 ∷ appends j1 OutputStream.stdout (79 ∷ 75 ∷ []) ∷ [])
      (tt, (tt, (tt, tt))) j1

abbrev first_entry : RegistryEntry
first_entry = record {
  job = record {
    id = j1;
    revision = 1;
    command_id = none;
    host_id = codes "h1";
    name = codes "Ad hoc command";
    command = codes "make";
    risk = l1;
    state = CommandJobState.queued;
    stdout = [];
    stderr = [];
    exit_code = none;
    error = none;
    started_at = none;
    finished_at = none;
  };
  sequence = 0;
  cancel = false;
  stdout_truncated = false;
  stderr_truncated = false;
}

step-Follows_example :
    Follows j1 (cancels j1 9) first_entry (get j1 (step one_job (cancels j1 9)).entries)
unfolding jobs
step-Follows_example =
    step-Follows one_job (cancels j1 9) j1 first_entry tt refl (omega arith, refl)

run_resolved_ok_example :
    (p : PreparedCommand) × ((HostOperation.entry (codes "h1") []).retired ≡ false)
    × (prepare_run resolved (some (codes " box ")) ≡ ok p)
    × (true ≡ true)
    × IsRegistered j1 p no_jobs first_entry.job
    × Keeps j1 first_entry.job
        (run_resolved j1 (λ _ _. true) resolved (some (codes " box ")) ([], no_jobs)).0.1
unfolding checked jobs run_resolved with_host_operation HostOperation.begin HostOperation.entry
run_resolved_ok_example =
    run_resolved_ok j1 (λ _ _. true) resolved (some (codes " box ")) ([], no_jobs) first_entry.job
      refl
