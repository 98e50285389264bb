-- ===== src/Jobs/Steps.antt =====
-- The registry of command_job.rs under any interleaving of its steps.
use remote_deck.Base.{ℤ, ℕ, Option, List, [], ◌∷◌, Text}
use remote_deck.Jobs.Types.{PreparedCommand, PtyCommandPlan}
use remote_deck.Jobs.Registry.{Jobs, OutputStream, start_process, record_pty_handoff}
use remote_deck.Jobs.Work.{
  cancel, transition_running, append_job_output, finish_cancelled, finish_completed, finish_failed,
}

pub data Step : Type 0 where
  starts_process : (id : Text) → PreparedCommand → Step
  hands_off : (id : Text) → (now : ℕ) → (session_id : Text) → PtyCommandPlan → Step
  cancels runs ends_cancelled : (id : Text) → (now : ℕ) → Step
  appends : (id : Text) → OutputStream → List ℕ → Step
  completes : (id : Text) → (exit_code : Option ℤ) → (now : ℕ) → Step
  fails : (id : Text) → (error : Text) → (exit_code : Option ℤ) → (now : ℕ) → Step

unfoldable pub step : Jobs → Step → Jobs
step jobs (starts_process id prepared) = (start_process id prepared jobs).0
step jobs (hands_off id now session_id plan) = (record_pty_handoff id now session_id plan jobs).0
step jobs (cancels id now) = record jobs { entries = (cancel id now jobs.entries).0 }
step jobs (runs id now) = record jobs { entries = (transition_running id now jobs.entries).0 }
step jobs (ends_cancelled id now) = record jobs { entries = finish_cancelled id now jobs.entries }
step jobs (appends id stream bytes) = record jobs {
  entries = append_job_output id stream bytes jobs.entries;
}
step jobs (completes id exit_code now) = record jobs {
  entries = finish_completed id exit_code now jobs.entries;
}
step jobs (fails id error exit_code now) = record jobs {
  entries = finish_failed id error exit_code now jobs.entries;
}

unfoldable pub run_steps : Jobs → List Step → Jobs
run_steps jobs [] = jobs
run_steps jobs (s ∷ steps) = run_steps (step jobs s) steps

abbrev pub no_jobs : Jobs
no_jobs = record { entries = []; next_sequence = 0 }
