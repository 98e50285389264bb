-- ===== src/Jobs/Run.antt =====
-- The starts of command_job.rs that need a host: a run of a resolved command and the record of a command
-- that was handed to a terminal. Each holds a lease of host_operation.rs until it returns.
use remote_deck.Base.{ℕ, Bool, if◌then◌else◌, Option, none, some, Text, ok, err}
use remote_deck.Model.{HostProfile}
use remote_deck.HostOperation
use remote_deck.HostOperation.{Barrier}
use remote_deck.Jobs.Types.{
  CommandJob, process, JobResult, ResolvedCommand, PreparedCommand, PtyCommandPlan,
}
use remote_deck.Jobs.Registry.{Jobs, start_process, record_pty_handoff}
use remote_deck.Jobs.Prepare.{prepare_run}

-- The work under a lease, which is dropped after it; a retired host gives none.
unfoldable pub with_host_operation :
    Text
    → (Jobs → Jobs × JobResult CommandJob)
    → Barrier × Jobs
    → (Barrier × Jobs) × JobResult CommandJob
with_host_operation host_id work (barrier, jobs) =
    let (held, lease) = HostOperation.begin host_id barrier in
    elim lease [
      | none ↦ ((held, jobs), err process)
      | some host ↦
          let (worked, result) = work jobs in ((HostOperation.drop_lease host held, worked), result)
    ]

-- What is left of a run once its command is prepared.
abbrev pub start_prepared :
    Text
    → (HostProfile → Text → Bool)
    → JobResult PreparedCommand
    → Jobs
    → Jobs × JobResult CommandJob
start_prepared id has_command_spec (err e) jobs = (jobs, err e)
start_prepared id has_command_spec (ok prepared) jobs =
    if has_command_spec prepared.host prepared.display_command
    then start_process id prepared jobs
    else (jobs, err process)

-- `has_command_spec` says whether the SSH runtime can build the command line for a host.
unfoldable pub run_resolved :
    Text
    → (HostProfile → Text → Bool)
    → ResolvedCommand
    → Option Text
    → Barrier × Jobs
    → (Barrier × Jobs) × JobResult CommandJob
unfolding with_host_operation prepare_run start_process
run_resolved id has_command_spec resolved confirmation =
    with_host_operation resolved.host.id
      (start_prepared id has_command_spec (prepare_run resolved confirmation))

unfoldable pub hand_off :
    Text → ℕ → Text → PtyCommandPlan → Barrier × Jobs → (Barrier × Jobs) × JobResult CommandJob
unfolding with_host_operation record_pty_handoff
hand_off id now session_id plan =
    with_host_operation plan.host_id (record_pty_handoff id now session_id plan)
