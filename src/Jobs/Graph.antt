-- ===== src/Jobs/Graph.antt =====
-- The states of a job of command_job.rs: each step moves along a graph, and an end is final.
use remote_deck.Base.{
  ℤ, ℕ, ◌+◌, ◌≤◌, ◌≡◌, refl, inl, inr, ◌⊎◌, Bool, true, false, ◌&&◌, ◌||◌, Option, none, some, List,
  Text, text_eq, text_eq_iff, Map, get, is_none, Option-cases, Bool-cases, arith, length, min,
}
use remote_deck.Session.Types.{u64_max}
use remote_deck.Jobs.Types.{CommandJobState, is_terminal, PreparedCommand, PtyCommandPlan}
use remote_deck.Jobs.Registry.{
  RegistryEntry, Jobs, OutputStream, revise_command_job, same_state, is_live, prune_terminal_jobs,
  start_process, record_pty_handoff,
}
use remote_deck.Jobs.Work.{
  on_entry, appended, revised, cancel, transition_running, append_job_output, finish_cancelled,
  finish_job, finish_completed, finish_failed,
}
use remote_deck.Jobs.Ends.{get-prune_from, entry-insert}
use remote_deck.Jobs.Steps.{
  Step, step, starts_process, hands_off, cancels, runs, ends_cancelled, appends, completes, fails,
}
use CommandJobState.{queued, running, cancelling, completed, failed, cancelled}

-- The graph: a job that is queued runs or is cancelled, one that runs ends or is asked to stop, one
-- that is asked to stop ends.
abbrev pub may_move : CommandJobState → CommandJobState → Bool
may_move queued queued = true
may_move queued running = true
may_move queued cancelled = true
may_move running running = true
may_move running cancelling = true
may_move running completed = true
may_move running failed = true
may_move running cancelled = true
may_move cancelling cancelling = true
may_move cancelling completed = true
may_move cancelling failed = true
may_move cancelling cancelled = true
may_move completed completed = true
may_move failed failed = true
may_move cancelled cancelled = true
may_move _ _ = false

-- An identifier is new when a job starts.
abbrev pub IsFresh : Jobs → Step → Type 0
IsFresh jobs (starts_process id prepared) = get id jobs.entries ≡ none
IsFresh jobs (hands_off id now session_id plan) = get id jobs.entries ≡ none
IsFresh jobs _ = Unit

-- The revision fits its type, and a cancelled job has its time.
abbrev pub IsSound : RegistryEntry → Type 0
IsSound e =
    (e.job.revision ≤ u64_max)
    × ((same_state e.job.state cancelled && is_none e.job.finished_at) ≡ false)

-- A move along the graph, where a job that has ended stays the same.
abbrev pub IsMove : RegistryEntry → RegistryEntry → Type 0
IsMove e f =
    (may_move e.job.state f.job.state ≡ true)
    × ((is_terminal e.job.state ≡ false) ⊎ (f.job ≡ e.job))

-- `finish_cancelled`, called for a job that is completed or failed, makes it cancelled.
abbrev pub IsOverridden : Text → Step → RegistryEntry → RegistryEntry → Type 0
IsOverridden id (ends_cancelled i now) e f =
    (i ≡ id)
    × ((same_state e.job.state completed || same_state e.job.state failed) ≡ true)
    × (f.job.state ≡ cancelled)
IsOverridden id _ e f = ⊥

-- What a step makes of a job, unless it is gone.
abbrev pub Follows : Text → Step → RegistryEntry → Option RegistryEntry → Type 0
Follows id s e none = Unit
Follows id s e (some f) =
    (IsMove e f ⊎ IsOverridden id s e f) × (e.job.revision ≤ f.job.revision) × IsSound f

-- The same for a step that overrides no end.
abbrev Moves : RegistryEntry → Option RegistryEntry → Type 0
Moves e none = Unit
Moves e (some f) = IsMove e f × (e.job.revision ≤ f.job.revision) × IsSound f

Moves-Follows :
    (id : Text) (s : Step) (e : RegistryEntry) (o : Option RegistryEntry)
    → Moves e o
    → Follows id s e o
Moves-Follows id s e none m = tt
Moves-Follows id s e (some f) (move, grows, sound) = (inl move, grows, sound)

prune-or :
    (id : Text) (m : Map RegistryEntry)
    → (get id (prune_terminal_jobs 512 m) ≡ none) ⊎ (get id (prune_terminal_jobs 512 m) ≡ get id m)
unfolding prune_terminal_jobs
prune-or id m = get-prune_from (length m) 512 id m

cancel-Moves :
    (id i : Text) (now : ℕ) (m : Map RegistryEntry) (e : RegistryEntry)
    → get id m ≡ some e
    → IsSound e
    → Moves e (get id (cancel i now m).0)
unfolding cancel revise_command_job is_terminal
cancel-Moves id i now m e g b = grind (arith, entry-insert, text_eq_iff i id)

transition_running-Moves :
    (id i : Text) (now : ℕ) (m : Map RegistryEntry) (e : RegistryEntry)
    → get id m ≡ some e
    → IsSound e
    → Moves e (get id (transition_running i now m).0)
unfolding transition_running revise_command_job is_terminal
transition_running-Moves id i now m e g b = grind (arith, entry-insert, text_eq_iff i id)

stays-Moves : (e : RegistryEntry) → IsSound e → Moves e (some e)
unfolding is_terminal
stays-Moves e b = ground arith

live-Moves :
    (e f : RegistryEntry)
    → is_live e.job.state ≡ true
    → f.job.state ≡ e.job.state
    → f.job.revision ≡ min (e.job.revision + 1) u64_max
    → IsSound e
    → Moves e (some f)
unfolding is_terminal
live-Moves e f live same next b = ground arith

-- A change of the entry of a live job that leaves its state.
on_entry-Moves :
    (id i : Text) (test : RegistryEntry → Bool) (change : RegistryEntry → RegistryEntry)
    (m : Map RegistryEntry) (e : RegistryEntry)
    → get id m ≡ some e
    → IsSound e
    → (test e ≡ true → Moves e (some (change e)))
    → Moves e (get id (on_entry i test change m))
on_entry-Moves id i test change m e g b h = elim (Option-cases (get i m)) [
  | inl q ↦ rw (q, on_entry, g) (stays-Moves e b)
  | inr (entry, q) ↦ elim (Bool-cases (test entry)) [
    | inr off ↦ rw (q, on_entry, off, g) (stays-Moves e b)
    | inl on ↦ elim (Bool-cases (text_eq i id)) [
      | inr other ↦
          rw (q, on_entry, on, entry-insert id i (change entry) m, other, g) (stays-Moves e b)
      | inl same ↦
          let one : entry ≡ e = ground (arith, text_eq_iff i id, same, q, g) in
          rw (q, on_entry, on, entry-insert id i (change entry) m, same, one)
            (h (ground (arith, on, one)))
    ]
  ]
]

append_job_output-Moves :
    (id i : Text) (stream : OutputStream) (bytes : List ℕ) (m : Map RegistryEntry)
    (e : RegistryEntry)
    → get id m ≡ some e
    → IsSound e
    → Moves e (get id (append_job_output i stream bytes m))
unfolding append_job_output revise_command_job
append_job_output-Moves id i OutputStream.stdout bytes m e g b =
    on_entry-Moves id i _ _ m e g b (λ t.
      live-Moves e (revised (appended OutputStream.stdout bytes e).0) (ground arith) refl refl b)
append_job_output-Moves id i OutputStream.stderr bytes m e g b =
    on_entry-Moves id i _ _ m e g b (λ t.
      live-Moves e (revised (appended OutputStream.stderr bytes e).0) (ground arith) refl refl b)

finish_cancelled-Follows :
    (id i : Text) (now : ℕ) (m : Map RegistryEntry) (e : RegistryEntry)
    → get id m ≡ some e
    → IsSound e
    → Follows id (ends_cancelled i now) e (get id (finish_cancelled i now m))
unfolding finish_cancelled revise_command_job is_terminal
finish_cancelled-Follows id i now m e g b = grind (arith, entry-insert, prune-or, text_eq_iff i id)

finish_job-Moves :
    (id i : Text) (state : CommandJobState) (code : Option ℤ) (error : Option Text) (now : ℕ)
    (m : Map RegistryEntry) (e : RegistryEntry)
    → (same_state state completed || same_state state failed) ≡ true
    → get id m ≡ some e
    → IsSound e
    → Moves e (get id (finish_job i state code error now m))
unfolding finish_job revise_command_job is_terminal
finish_job-Moves id i state code error now m e t g b =
    grind (arith, entry-insert, prune-or, text_eq_iff i id)

start_process-Moves :
    (id i : Text) (prepared : PreparedCommand) (jobs : Jobs) (e : RegistryEntry)
    → get i jobs.entries ≡ none
    → get id jobs.entries ≡ some e
    → IsSound e
    → Moves e (get id (start_process i prepared jobs).0.entries)
unfolding start_process is_terminal
start_process-Moves id i prepared jobs e new g b =
    grind (arith, entry-insert, prune-or id jobs.entries, text_eq_iff i id)

record_pty_handoff-Moves :
    (id i : Text) (now : ℕ) (session_id : Text) (plan : PtyCommandPlan) (jobs : Jobs)
    (e : RegistryEntry)
    → get i jobs.entries ≡ none
    → get id jobs.entries ≡ some e
    → IsSound e
    → Moves e (get id (record_pty_handoff i now session_id plan jobs).0.entries)
unfolding record_pty_handoff is_terminal
record_pty_handoff-Moves id i now session_id plan jobs e new g b =
    grind (arith, entry-insert, prune-or id jobs.entries, text_eq_iff i id)

-- Each step of the registry drops a job or moves it along the graph of states and leaves it as it is
-- when it has ended, with one exception: `finish_cancelled` may make a completed or failed job of
-- its identifier cancelled. No step takes a revision back. That is for identifiers that are new when a job
-- starts or is handed off, and for a job whose revision fits in 64 bits and which has its time when it
-- is cancelled, and this stays so.
pub step-Follows :
    (jobs : Jobs) (s : Step) (id : Text) (e : RegistryEntry)
    → IsFresh jobs s
    → get id jobs.entries ≡ some e
    → IsSound e
    → Follows id s e (get id (step jobs s).entries)
unfolding step finish_completed finish_failed
step-Follows jobs (starts_process i prepared) id e p g b =
    Moves-Follows id (starts_process i prepared) e _
      (start_process-Moves id i prepared jobs e p g b)
step-Follows jobs (hands_off i now session_id plan) id e p g b =
    Moves-Follows id (hands_off i now session_id plan) e _
      (record_pty_handoff-Moves id i now session_id plan jobs e p g b)
step-Follows jobs (cancels i now) id e p g b =
    Moves-Follows id (cancels i now) e _ (cancel-Moves id i now jobs.entries e g b)
step-Follows jobs (runs i now) id e p g b =
    Moves-Follows id (runs i now) e _ (transition_running-Moves id i now jobs.entries e g b)
step-Follows jobs (ends_cancelled i now) id e p g b =
    finish_cancelled-Follows id i now jobs.entries e g b
step-Follows jobs (appends i stream bytes) id e p g b =
    Moves-Follows id (appends i stream bytes) e _
      (append_job_output-Moves id i stream bytes jobs.entries e g b)
step-Follows jobs (completes i code now) id e p g b =
    Moves-Follows id (completes i code now) e _
      (finish_job-Moves id i completed code none now jobs.entries e refl g b)
step-Follows jobs (fails i error code now) id e p g b =
    Moves-Follows id (fails i error code now) e _
      (finish_job-Moves id i failed code _ now jobs.entries e refl g b)
