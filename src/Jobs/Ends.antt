-- ===== src/Jobs/Ends.antt =====
-- What the ends of a job in command_job.rs leave in its entry.
use remote_deck.Base.{
  ℤ, ℕ, zero, suc, ◌≡◌, refl, inl, inr, ◌⊎◌, Bool, true, false, ◌&&◌, not, Option, none, some, Text,
  text_eq, text_eq_refl, Map, get, insert, remove, get-insert, get-remove, if◌then◌else◌,
  is_some_and, is_none, arith, length, Option-cases,
}
use remote_deck.Jobs.Types.{CommandJobState, is_terminal}
use remote_deck.Jobs.Registry.{
  RegistryEntry, same_state, is_live, revise_command_job, oldest_job, prune_from,
  prune_terminal_jobs,
}
use remote_deck.Jobs.Work.{finish_cancelled, finish_job}

pub entry-insert :
    (j k : Text) (v : RegistryEntry) (m : Map RegistryEntry)
    → get j (insert k v m) ≡ (if text_eq k j then some v else get j m)
entry-insert = get-insert

pub entry-remove :
    (j k : Text) (m : Map RegistryEntry)
    → get j (remove k m) ≡ (if text_eq k j then none else get j m)
entry-remove = get-remove

-- Of the job's entry, if it has one.
abbrev pub Settled : Text → Map RegistryEntry → Type 0
Settled id m = is_some_and (get id m) (λ e. not (is_terminal e.job.state)) ≡ false

abbrev pub NotQueued : Text → Map RegistryEntry → Type 0
NotQueued id m = is_some_and (get id m) (λ e. same_state e.job.state CommandJobState.queued) ≡ false

abbrev pub Dormant : Text → Map RegistryEntry → Type 0
Dormant id m = is_some_and (get id m) (λ e. is_live e.job.state) ≡ false

-- Pruning takes entries away, and leaves the others as they are.
pub get-prune_from :
    (fuel limit : ℕ) (id : Text) (m : Map RegistryEntry)
    → (get id (prune_from fuel limit m) ≡ none) ⊎ (get id (prune_from fuel limit m) ≡ get id m)
unfolding prune_from
get-prune_from zero limit id m = inr refl
get-prune_from (suc fuel) limit id m = elim (Option-cases (oldest_job m)) [
  | inl e ↦ rw (e, prune_from) (inr refl)
  | inr ((i, n), e) ↦
      rw (e, prune_from) ground
        (arith, get-prune_from fuel limit id (remove i m), entry-remove id i m)
]

prune-Settled :
    (limit : ℕ) (id : Text) (m : Map RegistryEntry)
    → Settled id m
    → Settled id (prune_terminal_jobs limit m)
unfolding prune_terminal_jobs
prune-Settled limit id m h = ground (arith, get-prune_from (length m) limit id m)

insert-Settled :
    (id : Text) (e : RegistryEntry) (m : Map RegistryEntry)
    → is_terminal e.job.state ≡ true
    → Settled id (insert id e m)
insert-Settled id e m h = ground (arith, entry-insert id id e m, text_eq_refl id)

pub Settled-if :
    (id : Text) (b : Bool) (x y : Map RegistryEntry)
    → (b ≡ true → Settled id x)
    → (b ≡ false → Settled id y)
    → Settled id (if b then x else y)
Settled-if id true x y h k = h refl
Settled-if id false x y h k = k refl

is_terminal-cancelled : is_terminal CommandJobState.cancelled ≡ true
unfolding is_terminal
is_terminal-cancelled = refl

cancelled-Settled :
    (id : Text) (entry : RegistryEntry) (m : Map RegistryEntry)
    → get id m ≡ some entry
    → (same_state entry.job.state CommandJobState.cancelled && not (is_none entry.job.finished_at))
      ≡ true
    → Settled id m
unfolding is_terminal
cancelled-Settled id entry m e same = ground (arith, e)

still-Settled :
    (id : Text) (entry : RegistryEntry) (m : Map RegistryEntry)
    → get id m ≡ some entry
    → is_live entry.job.state ≡ false
    → NotQueued id m
    → Settled id m
unfolding is_terminal
still-Settled id entry m e still h = ground (arith, e)

-- The entry's state with its alternatives, for the jobs that are found.
pub absent-Settled : (id : Text) (m : Map RegistryEntry) → get id m ≡ none → Settled id m
absent-Settled id m e = ground (arith, e)

pub finish_cancelled-Settled :
    (id : Text) (now : ℕ) (m : Map RegistryEntry) → Settled id (finish_cancelled id now m)
unfolding finish_cancelled revise_command_job
finish_cancelled-Settled id now m = elim (Option-cases (get id m)) [
  | inl e ↦ rw (e, finish_cancelled) (absent-Settled id m e)
  | inr (entry, e) ↦
      rw (e, finish_cancelled)
        (Settled-if id _ m _ (λ same. cancelled-Settled id entry m e same)
          (λ other. prune-Settled 512 id _ (insert-Settled id _ m (is_terminal-cancelled))))
]

pub finish_job-Settled :
    (id : Text) (state : CommandJobState) (code : Option ℤ) (error : Option Text) (now : ℕ)
    (m : Map RegistryEntry)
    → is_terminal state ≡ true
    → NotQueued id m
    → Settled id (finish_job id state code error now m)
unfolding finish_job revise_command_job
finish_job-Settled id state code error now m t h = elim (Option-cases (get id m)) [
  | inl e ↦ rw (e, finish_job) (absent-Settled id m e)
  | inr (entry, e) ↦
      rw (e, finish_job)
        (Settled-if id _ _ m (λ live. prune-Settled 512 id _ (insert-Settled id _ m t))
          (λ still. still-Settled id entry m e still h))
]
