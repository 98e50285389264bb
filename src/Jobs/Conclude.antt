-- ===== src/Jobs/Conclude.antt =====
-- What `execute_job` of command_job.rs does after its loop ends the job.
use remote_deck.Base.{ℤ, ℕ, refl, ◌||◌, Option, none, some, Text, Map, Result, ok, err}
use remote_deck.Jobs.Types.{CommandJobState, is_terminal}
use remote_deck.Jobs.Registry.{RegistryEntry}
use remote_deck.Jobs.Work.{
  finish_cancelled, finish_failed, finish_completed, job_cancellation_requested,
}
use remote_deck.Jobs.Execute.{ProcessExit, Loop, exit_code, conclude, end_of_status}
use remote_deck.Jobs.Ends.{
  Settled, NotQueued, Settled-if, finish_cancelled-Settled, finish_job-Settled,
}

pub finish_failed-Settled :
    (id error : Text) (code : Option ℤ) (now : ℕ) (m : Map RegistryEntry)
    → NotQueued id m
    → Settled id (finish_failed id error code now m)
unfolding finish_failed is_terminal
finish_failed-Settled id error code now m h =
    finish_job-Settled id CommandJobState.failed code _ now m refl h

finish_completed-Settled :
    (id : Text) (code : Option ℤ) (now : ℕ) (m : Map RegistryEntry)
    → NotQueued id m
    → Settled id (finish_completed id code now m)
unfolding finish_completed is_terminal
finish_completed-Settled id code now m h =
    finish_job-Settled id CommandJobState.completed code none now m refl h

end_of_status-Settled :
    (id : Text) (now : ℕ) (status : Option (Result Text ProcessExit)) (m : Map RegistryEntry)
    → NotQueued id m
    → Settled id (end_of_status id now status m)
unfolding end_of_status
end_of_status-Settled id now none m h = finish_failed-Settled id _ none now m h
end_of_status-Settled id now (some (err error)) m h = finish_failed-Settled id error none now m h
end_of_status-Settled id now (some (ok status)) m h =
    Settled-if id status.success _ _ (λ _. finish_completed-Settled id status.code now m h)
      (λ _. finish_failed-Settled id _ status.code now m h)

-- A choice by an optional error.
Settled-elim :
    (id : Text) (o : Option Text) (f : Text → Map RegistryEntry) (d : Map RegistryEntry)
    → ((error : Text) → Settled id (f error))
    → Settled id d
    → Settled id (elim o [ some error ↦ f error | none ↦ d ])
Settled-elim id none f d h k = k
Settled-elim id (some error) f d h k = h error

pub conclude-Settled :
    (id : Text) (now : ℕ) (l : Loop) (m : Map RegistryEntry)
    → NotQueued id m
    → Settled id (conclude id now l m)
unfolding conclude
conclude-Settled id now l m h =
    Settled-if id (l.cancellation_seen || job_cancellation_requested id m) _ _
      (λ _.
        Settled-elim id l.cancellation_failure
          (λ error. finish_failed id error (exit_code l.status) now m) (finish_cancelled id now m)
          (λ error. finish_failed-Settled id error (exit_code l.status) now m h)
          (finish_cancelled-Settled id now m))
      (λ _.
        Settled-elim id l.pipe_error (λ error. finish_failed id error (exit_code l.status) now m)
          (end_of_status id now l.status m)
          (λ error. finish_failed-Settled id error (exit_code l.status) now m h)
          (end_of_status-Settled id now l.status m h))
