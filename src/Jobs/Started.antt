-- ===== src/Jobs/Started.antt =====
-- What a run of command_job.rs that is accepted went through.
use remote_deck.Base.{
  ◌≡◌, ◌≤◌, ◌+◌, ◌∙◌, ap, refl, inl, inr, Bool, true, false, leb, Option, none, some, Text,
  text_eq_refl, get, ok, err, arith, Bool-cases,
}
use remote_deck.Model.{HostProfile}
use remote_deck.HostOperation
use remote_deck.HostOperation.{Barrier}
use remote_deck.Jobs.Types.{
  CommandJob, CommandJobState, JobResult, ResolvedCommand, PreparedCommand, max_pending_jobs,
  max_retained_jobs,
}
use remote_deck.Jobs.Registry.{RegistryEntry, Jobs, start_process, active_jobs, prune_terminal_jobs}
use remote_deck.Jobs.Prepare.{prepare_run}
use remote_deck.Jobs.Run.{with_host_operation, start_prepared, run_resolved}
use remote_deck.Jobs.Ends.{entry-insert}

with_host_operation_ok :
    (host_id : Text) (work : Jobs → Jobs × JobResult CommandJob) (state : Barrier × Jobs)
    (job : CommandJob)
    → (with_host_operation host_id work state).1 ≡ ok job
    → ((HostOperation.entry host_id state.0).retired ≡ false)
      × ((work state.1).1 ≡ ok job)
      × ((with_host_operation host_id work state).0.1 ≡ (work state.1).0)
unfolding with_host_operation HostOperation.begin
with_host_operation_ok host_id work (barrier, jobs) job e =
    elim (Bool-cases (HostOperation.entry host_id barrier).retired) [
      | inl retired ↦ absurd (ground (arith, retired))
      | inr active ↦ (active, ground (arith, active), ground (arith, active))
    ]

abbrev job_of : Option RegistryEntry → Option CommandJob
job_of none = none
job_of (some entry) = some entry.job

-- The registry keeps the job under its identifier.
abbrev pub Keeps : Text → CommandJob → Jobs → Type 0
Keeps id job jobs = job_of (get id jobs.entries) ≡ some job

-- A job that was registered: it waits, is of the prepared command, and was not one too many.
abbrev pub IsRegistered : Text → PreparedCommand → Jobs → CommandJob → Type 0
IsRegistered id prepared jobs job =
    (active_jobs (prune_terminal_jobs max_retained_jobs jobs.entries) + 1 ≤ max_pending_jobs)
    × (job.state ≡ CommandJobState.queued)
    × (job.command ≡ prepared.display_command)
    × (job.risk ≡ prepared.risk)

start_process_ok :
    (id : Text) (prepared : PreparedCommand) (jobs : Jobs) (job : CommandJob)
    → (start_process id prepared jobs).1 ≡ ok job
    → IsRegistered id prepared jobs job × Keeps id job (start_process id prepared jobs).0
unfolding start_process
start_process_ok id prepared jobs job e =
    let entries = prune_terminal_jobs max_retained_jobs jobs.entries in
    elim (Bool-cases (leb max_pending_jobs (active_jobs entries))) [
      | inl full ↦ absurd (ground (arith, full))
      | inr free ↦ (
        (ground (arith, free), ground (arith, free), ground (arith, free), ground (arith, free)),
        grind (arith, free, entry-insert, text_eq_refl id),
      )
    ]

start_prepared_ok :
    (id : Text) (has_command_spec : HostProfile → Text → Bool) (made : JobResult PreparedCommand)
    (jobs : Jobs) (job : CommandJob)
    → (start_prepared id has_command_spec made jobs).1 ≡ ok job
    → (prepared : PreparedCommand) × (made ≡ ok prepared)
      × (has_command_spec prepared.host prepared.display_command ≡ true)
      × IsRegistered id prepared jobs job
      × Keeps id job (start_prepared id has_command_spec made jobs).0
start_prepared_ok id has_command_spec (err f) jobs job e = absurd cc
start_prepared_ok id has_command_spec (ok prepared) jobs job e =
    elim (Bool-cases (has_command_spec prepared.host prepared.display_command)) [
      | inr none_built ↦ absurd (ground (arith, none_built))
      | inl built ↦
          let (registered, kept) = start_process_ok id prepared jobs job (ground (arith, built)) in
          (prepared, refl, built, registered, rw built kept)
    ]

-- A run that is accepted was one of a host that is not being retired; its command was prepared, so its
-- risk was confirmed, ssh has a command line for it, fewer than 128 jobs were waiting or running, and
-- it is kept as a queued job of that command and risk.
pub run_resolved_ok :
    (id : Text) (has_command_spec : HostProfile → Text → Bool) (resolved : ResolvedCommand)
    (confirmation : Option Text) (state : Barrier × Jobs) (job : CommandJob)
    → (run_resolved id has_command_spec resolved confirmation state).1 ≡ ok job
    → (prepared : PreparedCommand) × ((HostOperation.entry resolved.host.id state.0).retired
        ≡ false)
      × (prepare_run resolved confirmation ≡ ok prepared)
      × (has_command_spec prepared.host prepared.display_command ≡ true)
      × IsRegistered id prepared state.1 job
      × Keeps id job (run_resolved id has_command_spec resolved confirmation state).0.1
unfolding run_resolved
run_resolved_ok id has_command_spec resolved confirmation state job e =
    let work = start_prepared id has_command_spec (prepare_run resolved confirmation) in
    let (active, started, same) = with_host_operation_ok resolved.host.id work state job e in
    let (prepared, made, built, registered, kept) =
      start_prepared_ok id has_command_spec (prepare_run resolved confirmation) state.1 job
        started in
    (
      prepared,
      active,
      made,
      built,
      registered,
      ap (λ jobs. job_of (get id jobs.entries)) same ∙ kept,
    )
