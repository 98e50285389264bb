-- ===== src/Jobs/Bounds.antt =====
-- The outputs of the jobs of command_job.rs after any steps.
use remote_deck.Base.{
  ℤ, ℕ, ◌≤◌, ◌≡◌, refl, false, ◌||◌, Option, none, List, [], ◌∷◌, ◌++◌, Text, codes, text_eq_iff,
  Map, get, is_some_and, ltb, arith, All, byte_len, as_bytes, utf8_char, length,
}
use remote_deck.Jobs.Types.{CommandJobState, command_output_limit, PreparedCommand, PtyCommandPlan}
use remote_deck.Jobs.Registry.{
  RegistryEntry, Jobs, OutputStream, revise_command_job, prune_terminal_jobs, start_process,
  record_pty_handoff,
}
use remote_deck.Jobs.Work.{
  cancel, transition_running, append_job_output, finish_cancelled, finish_job, finish_completed,
  finish_failed,
}
use remote_deck.Jobs.Output.{append_bounded-le, byte_len-append, byte_len-nil}
use remote_deck.Jobs.Ends.{get-prune_from, entry-insert}
use remote_deck.Jobs.Steps.{
  Step, step, run_steps, no_jobs, starts_process, hands_off, cancels, runs, ends_cancelled, appends,
  completes, fails,
}

-- The outputs of the job with this identifier are within 1 MiB, if there is such a job.
abbrev pub IsWithin : Text → Map RegistryEntry → Type 0
IsWithin id m =
    is_some_and (get id m) (λ e.
      ltb command_output_limit (byte_len e.job.stdout)
      || ltb command_output_limit (byte_len e.job.stderr))
    ≡ false

prune-IsWithin :
    (id : Text) (m : Map RegistryEntry) → IsWithin id m → IsWithin id (prune_terminal_jobs 512 m)
unfolding prune_terminal_jobs
prune-IsWithin id m h = ground (arith, get-prune_from (length m) 512 id m)

cancel-IsWithin :
    (id i : Text) (now : ℕ) (m : Map RegistryEntry) → IsWithin id m → IsWithin id (cancel i now m).0
unfolding cancel revise_command_job
cancel-IsWithin id i now m h = grind (arith, entry-insert, text_eq_iff i id)

transition_running-IsWithin :
    (id i : Text) (now : ℕ) (m : Map RegistryEntry)
    → IsWithin id m
    → IsWithin id (transition_running i now m).0
unfolding transition_running revise_command_job
transition_running-IsWithin id i now m h = grind (arith, entry-insert, text_eq_iff i id)

append_job_output-IsWithin :
    (id i : Text) (stream : OutputStream) (bytes : List ℕ) (m : Map RegistryEntry)
    → IsWithin id m
    → IsWithin id (append_job_output i stream bytes m)
unfolding append_job_output revise_command_job
append_job_output-IsWithin id i OutputStream.stdout bytes m h =
    grind (arith, entry-insert, append_bounded-le, text_eq_iff i id)
append_job_output-IsWithin id i OutputStream.stderr bytes m h =
    grind (arith, entry-insert, append_bounded-le, text_eq_iff i id)

finish_cancelled-IsWithin :
    (id i : Text) (now : ℕ) (m : Map RegistryEntry)
    → IsWithin id m
    → IsWithin id (finish_cancelled i now m)
unfolding finish_cancelled revise_command_job
finish_cancelled-IsWithin id i now m h =
    grind (arith, entry-insert, prune-IsWithin, text_eq_iff i id)

byte_len-opened : byte_len (codes "Opened interactive terminal session ") ≡ 36
unfolding byte_len as_bytes utf8_char
byte_len-opened = refl

byte_len-dot : byte_len (codes ".") ≡ 1
unfolding byte_len as_bytes utf8_char
byte_len-dot = refl

handoff-le :
    (session_id : Text)
    → byte_len session_id ≤ 1024
    → byte_len (codes "Opened interactive terminal session " ++ session_id ++ codes ".")
      ≤ command_output_limit
handoff-le session_id b = omega (
  arith,
  byte_len-append (codes "Opened interactive terminal session " ++ session_id) (codes "."),
  byte_len-append (codes "Opened interactive terminal session ") session_id,
  byte_len-opened,
  byte_len-dot,
)

finish_job-IsWithin :
    (id i : Text) (state : CommandJobState) (code : Option ℤ) (error : Option Text) (now : ℕ)
    (m : Map RegistryEntry)
    → IsWithin id m
    → IsWithin id (finish_job i state code error now m)
unfolding finish_job revise_command_job
finish_job-IsWithin id i state code error now m h =
    grind (arith, entry-insert, prune-IsWithin, text_eq_iff i id)

start_process-IsWithin :
    (id i : Text) (prepared : PreparedCommand) (jobs : Jobs)
    → IsWithin id jobs.entries
    → IsWithin id (start_process i prepared jobs).0.entries
unfolding start_process
start_process-IsWithin id i prepared jobs h =
    grind (arith, entry-insert, prune-IsWithin id jobs.entries h, byte_len-nil, text_eq_iff i id)

record_pty_handoff-IsWithin :
    (id i : Text) (now : ℕ) (session_id : Text) (plan : PtyCommandPlan) (jobs : Jobs)
    → byte_len session_id ≤ 1024
    → IsWithin id jobs.entries
    → IsWithin id (record_pty_handoff i now session_id plan jobs).0.entries
unfolding record_pty_handoff
record_pty_handoff-IsWithin id i now session_id plan jobs b h = grind (
  arith,
  entry-insert,
  prune-IsWithin id jobs.entries h,
  byte_len-nil,
  handoff-le session_id b,
  text_eq_iff i id,
)

-- The identifiers of sessions are short.
abbrev pub IsShort : Step → Type 0
IsShort (hands_off id now session_id plan) = byte_len session_id ≤ 1024
IsShort _ = Unit

step-IsWithin :
    (id : Text) (jobs : Jobs) (s : Step)
    → IsShort s
    → IsWithin id jobs.entries
    → IsWithin id (step jobs s).entries
unfolding step finish_completed finish_failed
step-IsWithin id jobs (starts_process i prepared) b h = start_process-IsWithin id i prepared jobs h
step-IsWithin id jobs (hands_off i now session_id plan) b h =
    record_pty_handoff-IsWithin id i now session_id plan jobs b h
step-IsWithin id jobs (cancels i now) b h = cancel-IsWithin id i now jobs.entries h
step-IsWithin id jobs (runs i now) b h = transition_running-IsWithin id i now jobs.entries h
step-IsWithin id jobs (ends_cancelled i now) b h = finish_cancelled-IsWithin id i now jobs.entries h
step-IsWithin id jobs (appends i stream bytes) b h =
    append_job_output-IsWithin id i stream bytes jobs.entries h
step-IsWithin id jobs (completes i code now) b h =
    finish_job-IsWithin id i _ code none now jobs.entries h
step-IsWithin id jobs (fails i error code now) b h =
    finish_job-IsWithin id i _ code _ now jobs.entries h

run_steps-IsWithin_from :
    (steps : List Step) (jobs : Jobs) (id : Text)
    → All IsShort steps
    → IsWithin id jobs.entries
    → IsWithin id (run_steps jobs steps).entries
unfolding run_steps
run_steps-IsWithin_from [] jobs id b h = h
run_steps-IsWithin_from (s ∷ steps) jobs id b h =
    run_steps-IsWithin_from steps (step jobs s) id b.1 (step-IsWithin id jobs s b.0 h)

-- After any steps from no jobs, both outputs of every job are within 1 MiB, however much its process
-- prints, when the identifiers of terminal sessions are short.
pub run_steps-IsWithin :
    (steps : List Step)
    → All IsShort steps
    → (id : Text) → IsWithin id (run_steps no_jobs steps).entries
unfolding get
run_steps-IsWithin steps b id = run_steps-IsWithin_from steps no_jobs id b refl
