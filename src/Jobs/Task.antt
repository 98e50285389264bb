-- ===== src/Jobs/Task.antt =====
-- The task of a job in command_job.rs ends, and then its job has ended.
use remote_deck.Base.{
  ℕ, ◌≡◌, refl, ◌∙◌, inl, inr, Bool, true, false, ◌||◌, Option, none, some, List, [], ◌∷◌, ◌++◌,
  Text, text_eq_refl, Map, arith, All, Result, Option-cases, Bool-cases,
}
use remote_deck.Jobs.Types.{is_terminal}
use remote_deck.Jobs.Registry.{RegistryEntry, OutputStream, revise_command_job}
use remote_deck.Jobs.Work.{transition_running, append_job_output, finish_cancelled, finish_failed}
use remote_deck.Jobs.Execute.{
  Poll, cancel_polled, exited, piped, pipe_failed, pipes_closed, deadline, meanwhile, Admission,
  cancel_changed, permitted, scheduler_closed, ProcessExit, Loop, first_loop, is_over, wake,
  supervise, conclude, run_process, execute_job,
}
use remote_deck.Jobs.Ends.{Settled, NotQueued, Dormant, finish_cancelled-Settled, entry-insert}
use remote_deck.Jobs.Conclude.{finish_failed-Settled, conclude-Settled}

-- Other threads do not queue the job again.
abbrev pub Quiet : Text → Poll → Type 0
Quiet id (meanwhile others) = (m : Map RegistryEntry) → NotQueued id m → NotQueued id (others m)
Quiet id _ = Unit

append_job_output-NotQueued :
    (id : Text) (stream : OutputStream) (bytes : List ℕ) (m : Map RegistryEntry)
    → NotQueued id m
    → NotQueued id (append_job_output id stream bytes m)
unfolding append_job_output revise_command_job
append_job_output-NotQueued id OutputStream.stdout bytes m h =
    grind (arith, entry-insert, text_eq_refl id)
append_job_output-NotQueued id OutputStream.stderr bytes m h =
    grind (arith, entry-insert, text_eq_refl id)

wake-NotQueued :
    (id : Text) (poll : Poll) (l : Loop) (m : Map RegistryEntry)
    → Quiet id poll
    → NotQueued id m
    → NotQueued id (wake id poll l m).1
unfolding wake
wake-NotQueued id (cancel_polled closed value kill) l m q h = ground arith
wake-NotQueued id (exited result) l m q h = ground arith
wake-NotQueued id (piped stream bytes) l m q h =
    ground (arith, append_job_output-NotQueued id stream bytes m h)
wake-NotQueued id (pipe_failed stream message kill) l m q h = ground arith
wake-NotQueued id pipes_closed l m q h = ground arith
wake-NotQueued id deadline l m q h = ground arith
wake-NotQueued id (meanwhile others) l m q h = q m h

supervise_now :
    (id : Text) (polls : List Poll) (l : Loop) (m : Map RegistryEntry)
    → is_over l ≡ true
    → supervise id polls l m ≡ some (l, m)
unfolding supervise
supervise_now id [] l m h = ground (arith, h)
supervise_now id (poll ∷ polls) l m h = ground (arith, h)

supervise_later :
    (id : Text) (poll : Poll) (polls : List Poll) (l : Loop) (m : Map RegistryEntry)
    → is_over l ≡ false
    → supervise id (poll ∷ polls) l m ≡ supervise id polls (wake id poll l m).0 (wake id poll l m).1
unfolding supervise
supervise_later id poll polls l m h = ground (arith, h)

ended-is_over :
    (id : Text) (status : Result Text ProcessExit) (l : Loop) (m n : Map RegistryEntry)
    → is_over (wake id pipes_closed (wake id (exited status) l m).0 n).0 ≡ true
unfolding wake is_over
ended-is_over id status l m n = ground arith

-- However the loop goes on, it ends once the process has exited and its pipes are closed.
abbrev Ended : Text → List Poll → Loop → Map RegistryEntry → Type 0
Ended id polls l m =
    (t : Loop × Map RegistryEntry) × (supervise id polls l m ≡ some t) × NotQueued id t.1

last-Ended :
    (id : Text) (status : Result Text ProcessExit) (l : Loop) (m : Map RegistryEntry)
    → NotQueued id m
    → Ended id (exited status ∷ pipes_closed ∷ []) l m
last-Ended id status l m h =
    let one = wake id (exited status) l m in
    let two = wake id pipes_closed one.0 one.1 in
    let kept = wake-NotQueued id (exited status) l m tt h in
    elim (Bool-cases (is_over l)) [
      | inl over ↦ ((l, m), supervise_now id _ l m over, h)
      | inr more ↦ elim (Bool-cases (is_over one.0)) [
        | inl over ↦
            (one, supervise_later id _ _ l m more ∙ supervise_now id _ one.0 one.1 over, kept)
        | inr again ↦ (
          two,
          supervise_later id _ _ l m more
              ∙ supervise_later id _ _ one.0 one.1 again
              ∙ supervise_now id _ two.0 two.1 (ended-is_over id status l m one.1),
          wake-NotQueued id pipes_closed one.0 one.1 tt kept,
        )
      ]
    ]

supervise-Ended :
    (id : Text) (polls : List Poll) (status : Result Text ProcessExit) (l : Loop)
    (m : Map RegistryEntry)
    → All (Quiet id) polls
    → NotQueued id m
    → Ended id (polls ++ exited status ∷ pipes_closed ∷ []) l m
supervise-Ended id [] status l m q h = last-Ended id status l m h
supervise-Ended id (poll ∷ polls) status l m q h = elim (Bool-cases (is_over l)) [
  | inl over ↦ ((l, m), supervise_now id _ l m over, h)
  | inr more ↦
      let next = wake id poll l m in
      let (t, same, kept) =
        supervise-Ended id polls status next.0 next.1 q.1 (wake-NotQueued id poll l m q.0 h) in
      (t, supervise_later id poll _ l m more ∙ same, kept)
]

-- The scheduler runs, and the watch channel only tells of a cancellation.
abbrev pub admits : Admission → Bool
admits (cancel_changed closed value) = closed || value
admits permitted = true
admits scheduler_closed = false

started-NotQueued :
    (id : Text) (now : ℕ) (m : Map RegistryEntry)
    → (transition_running id now m).1 ≡ true
    → NotQueued id (transition_running id now m).0
unfolding transition_running revise_command_job
started-NotQueued id now m h = grind (arith, entry-insert, text_eq_refl id)

unstarted-Settled :
    (id : Text) (now : ℕ) (m : Map RegistryEntry)
    → Dormant id m
    → (transition_running id now m).1 ≡ false
    → Settled id m
unfolding transition_running is_terminal
unstarted-Settled id now m d h = ground arith

run_process_settles :
    (id : Text) (now : ℕ) (spawn_error : Option Text) (polls : List Poll)
    (status : Result Text ProcessExit) (entries : Map RegistryEntry)
    → Dormant id entries
    → All (Quiet id) polls
    → (result : Map RegistryEntry) × (run_process id now spawn_error
          (polls ++ exited status ∷ pipes_closed ∷ [])
          entries
        ≡ some result)
      × Settled id result
unfolding run_process
run_process_settles id now spawn_error polls status entries d q =
    let (running, started) = transition_running id now entries in
    elim (Bool-cases started) [
      | inr stays ↦ (entries, ground (arith, stays), unstarted-Settled id now entries d stays)
      | inl goes ↦
          let kept = started-NotQueued id now entries goes in
          elim (Option-cases spawn_error) [
            | inr (error, e) ↦ (
              finish_failed id error none now running,
              ground (arith, goes, e),
              finish_failed-Settled id error none now running kept,
            )
            | inl e ↦
                let (t, same, still) = supervise-Ended id polls status first_loop running q kept in
                (
                  conclude id now t.0 t.1,
                  ground (arith, goes, e, same),
                  conclude-Settled id now t.0 t.1 still,
                )
          ]
    ]

-- The task of a job returns once its process has exited and its pipes are closed, whatever happened
-- before, and then its job has ended: it is completed, failed or cancelled, or no longer kept. This
-- holds for a job that no other task runs, when other threads do not queue it again, when the
-- semaphore is open and when the watch channel only tells of a cancellation.
pub execute_job_settles :
    (id : Text) (now : ℕ) (early : Bool) (admission : Admission) (spawn_error : Option Text)
    (polls : List Poll) (status : Result Text ProcessExit) (entries : Map RegistryEntry)
    → Dormant id entries
    → All (Quiet id) polls
    → admits admission ≡ true
    → (result : Map RegistryEntry) × (execute_job id now early admission spawn_error
          (polls ++ exited status ∷ pipes_closed ∷ [])
          entries
        ≡ some result)
      × Settled id result
unfolding execute_job
execute_job_settles id now true admission spawn_error polls status entries d q a =
    (finish_cancelled id now entries, refl, finish_cancelled-Settled id now entries)
execute_job_settles id now false scheduler_closed spawn_error polls status entries d q a = absurd cc
execute_job_settles id now false (cancel_changed closed value) spawn_error polls status entries d q
      a =
    (finish_cancelled id now entries, rw a refl, finish_cancelled-Settled id now entries)
execute_job_settles id now false permitted spawn_error polls status entries d q a =
    run_process_settles id now spawn_error polls status entries d q
