-- ===== src/HostOperation/Steps.antt =====
-- The barrier under any interleaving of its clients, together with the leases that they hold.
use remote_deck.Base.{
  ℕ, zero, suc, ◌+◌, ◌-◌, ◌≤◌, ◌<◌, ◌≡◌, refl, Bool, true, false, Option, none, some, List, [], ◌∷◌,
  arith, Text, text_eq, text_eq_iff, get, if◌then◌else◌, length, any, ◌≢◌, ◌==◌, ◌∙◌, ◌↔◌,
  text_eq_refl,
}
use remote_deck.HostOperation.{
  Barrier, usize_max, entry, begin, drop_lease, retire, restore, is_idle, saturating_inc, wait_idle,
}
use remote_deck.HostOperation.Entries.{
  entry-begin, entry-drop_lease, entry-retire, entry-restore, is_idle_iff, begin_lease,
}

-- What a client asks for; `drops` gives a lease back.
pub data Op : Type 0 where
  begins drops retires restores : Text → Op

-- The barrier with the leases that clients hold.
pub record System : Type 0 where
  pub barrier : Barrier
  pub held : List Text

unfoldable pub leases_on : Text → List Text → ℕ
leases_on host [] = 0
leases_on host (l ∷ ls) = if text_eq l host then leases_on host ls + 1 else leases_on host ls

-- The leases left when one on the host is given back.
unfoldable pub take_one : Text → List Text → List Text
take_one host [] = []
take_one host (l ∷ ls) = if text_eq l host then ls else l ∷ take_one host ls

abbrev granted : Option Text → List Text → List Text
granted none held = held
granted (some l) held = l ∷ held

-- A lease is dropped once: a client gives back only what it holds.
unfoldable pub step : System → Op → System
step s (begins h) = record {
  barrier = (begin h s.barrier).0;
  held = granted (begin h s.barrier).1 s.held;
}
step s (drops h) =
    if leases_on h s.held == 0
    then s
    else record { barrier = drop_lease h s.barrier; held = take_one h s.held }
step s (retires h) = record s { barrier = retire h s.barrier }
step s (restores h) = record s { barrier = restore h s.barrier }

unfoldable pub run : System → List Op → System
run s [] = s
run s (op ∷ ops) = run (step s op) ops

abbrev pub start : System
start = record { barrier = []; held = [] }

leases_on-le : (h : Text) (ls : List Text) → leases_on h ls ≤ length ls
unfolding leases_on
leases_on-le h [] = omega arith
leases_on-le h (l ∷ ls) = ground (arith, leases_on-le h ls)

leases_on-take_one :
    (g h : Text) (ls : List Text)
    → leases_on g (take_one h ls) ≡ (if text_eq h g then leases_on g ls - 1 else leases_on g ls)
unfolding leases_on take_one
leases_on-take_one g h [] = ground arith
leases_on-take_one g h (l ∷ ls) = ground (
  arith,
  text_eq_iff l h,
  text_eq_iff h g,
  text_eq_iff l g,
  leases_on-take_one g h ls,
  text_eq_iff h h,
)

-- The barrier counts each host's leases.
abbrev pub Counts : System → Type 0
Counts s = (g : Text) → (entry g s.barrier).active ≡ leases_on g s.held

begin-Counts :
    (s : System) (h : Text) → length s.held < usize_max → Counts s → Counts (step s (begins h))
unfolding step leases_on saturating_inc
begin-Counts s h room c g = ground (
  arith,
  entry-begin g h s.barrier,
  begin_lease h s.barrier,
  c g,
  c h,
  text_eq_iff h g,
  leases_on-le h s.held,
)

step-Counts : (s : System) (op : Op) → length s.held < usize_max → Counts s → Counts (step s op)
unfolding step
step-Counts s (begins h) room c g = begin-Counts s h room c g
step-Counts s (drops h) room c g = ground (
  arith,
  entry-drop_lease g h s.barrier,
  leases_on-take_one g h s.held,
  c g,
  c h,
  text_eq_iff h g,
)
step-Counts s (retires h) room c g =
    ground (arith, entry-retire g h s.barrier, c g, c h, text_eq_iff h g)
step-Counts s (restores h) room c g =
    ground (arith, entry-restore g h s.barrier, c g, c h, text_eq_iff h g)

length-take_one-le : (h : Text) (ls : List Text) → length (take_one h ls) ≤ length ls
unfolding take_one
length-take_one-le h [] = omega arith
length-take_one-le h (l ∷ ls) = ground (arith, length-take_one-le h ls)

length-held-step : (s : System) (op : Op) → length (step s op).held ≤ length s.held + 1
unfolding step
length-held-step s (begins h) = ground (arith, begin_lease h s.barrier)
length-held-step s (drops h) = ground (arith, length-take_one-le h s.held)
length-held-step s (retires h) = omega arith
length-held-step s (restores h) = omega arith

run-Counts_from :
    (s : System) (ops : List Op)
    → length s.held + length ops ≤ usize_max
    → Counts s
    → Counts (run s ops)
unfolding run
run-Counts_from s [] room c = c
run-Counts_from s (op ∷ ops) room c =
    run-Counts_from (step s op) ops (omega (arith, length-held-step s op))
      (step-Counts s op (omega arith) c)

start-Counts : Counts start
unfolding entry leases_on get
start-Counts g = refl

-- After any sequence of at most `usize::MAX` operations from the empty barrier, the count of active
-- operations of every host is the number of leases held on it, and a check of `wait_idle` passes for
-- a host exactly when no lease on it is held.
pub run-Counts :
    (ops : List Op)
    → length ops ≤ usize_max
    → (g : Text)
    → ((entry g (run start ops).barrier).active ≡ leases_on g (run start ops).held)
      × ((is_idle g (run start ops).barrier ≡ true) ↔ (leases_on g (run start ops).held ≡ 0))
run-Counts ops room g =
    let counted = run-Counts_from start ops (omega arith) start-Counts g in
    (counted, ground (arith, is_idle_iff g (run start ops).barrier))

-- The host is retired and no lease on it is left.
abbrev pub IsDrained : Text → System → Type 0
IsDrained h s = ((entry h s.barrier).retired ≡ true) × (leases_on h s.held ≡ 0)

abbrev pub restores_host : Text → Op → Bool
restores_host h (restores g) = text_eq g h
restores_host h _ = false

step-IsDrained :
    (h : Text) (s : System) (op : Op)
    → restores_host h op ≡ false
    → IsDrained h s
    → IsDrained h (step s op)
unfolding step leases_on
step-IsDrained h s (begins g) f d =
    ground (arith, entry-begin h g s.barrier, begin_lease g s.barrier, text_eq_iff g h)
step-IsDrained h s (drops g) f d =
    ground (arith, entry-drop_lease h g s.barrier, leases_on-take_one h g s.held, text_eq_iff g h)
step-IsDrained h s (retires g) f d = ground (arith, entry-retire h g s.barrier, text_eq_iff g h)
step-IsDrained h s (restores g) f d = ground (arith, entry-restore h g s.barrier, text_eq_iff g h)

-- Once a host is retired and drained, no sequence of operations without a restoration of that host
-- gives out a lease on it: it stays retired, no lease on it is held, and `begin` refuses it.
pub run-IsDrained :
    (h : Text) (s : System) (ops : List Op)
    → any (restores_host h) ops ≡ false
    → IsDrained h s
    → IsDrained h (run s ops) × ((begin h (run s ops).barrier).1 ≡ none)
unfolding run
run-IsDrained h s [] f d = (d, ground (arith, begin_lease h s.barrier))
run-IsDrained h s (op ∷ ops) f d =
    run-IsDrained h (step s op) ops (ground arith) (step-IsDrained h s op (ground arith) d)

abbrev pub repeat : ℕ → Op → List Op
repeat zero op = []
repeat (suc n) op = op ∷ repeat n op

wait_idle_returns :
    (h : Text) (b : Barrier) → (entry h b).active ≡ 0 → wait_idle h (b ∷ []) ≡ some b
unfolding wait_idle entry
wait_idle_returns h b e = ground arith

step_retires :
    (h : Text) (s : System)
    → (leases_on h (step s (retires h)).held ≡ leases_on h s.held)
      × ((entry h (step s (retires h)).barrier).active ≡ (entry h s.barrier).active)
      × ((entry h (step s (retires h)).barrier).retired ≡ true)
unfolding step
step_retires h s = ground (arith, entry-retire h h s.barrier, text_eq_refl h)

drop_one :
    (h : Text) (s : System)
    → (leases_on h (step s (drops h)).held ≡ leases_on h s.held - 1)
      × ((entry h (step s (drops h)).barrier).retired ≡ (entry h s.barrier).retired)
      × ((leases_on h s.held ≢ 0)
          → (entry h (step s (drops h)).barrier).active ≡ (entry h s.barrier).active - 1)
unfolding step
drop_one h s =
    ground (arith, entry-drop_lease h h s.barrier, leases_on-take_one h h s.held, text_eq_refl h)

drops_drain :
    (n : ℕ) (h : Text) (s : System)
    → leases_on h s.held ≡ n
    → (entry h s.barrier).active ≡ n
    → (leases_on h (run s (repeat n (drops h))).held ≡ 0)
      × ((entry h (run s (repeat n (drops h))).barrier).active ≡ 0)
      × ((entry h (run s (repeat n (drops h))).barrier).retired ≡ (entry h s.barrier).retired)
unfolding run
drops_drain zero h s e k = (e, k, refl)
drops_drain (suc n) h s e k =
    let (left, same, fewer) = drop_one h s in
    let (none_left, idle, kept) =
      drops_drain n h (step s (drops h)) (omega arith) (omega (arith, fewer (omega arith))) in
    (none_left, idle, kept ∙ same)

-- The deletion protocol ends: when a host is retired and each lease held on it is given back, the
-- next check of `wait_idle` returns, and the host is retired with no lease left.
pub retire_drains :
    (ops : List Op) (h : Text)
    → length ops ≤ usize_max
    → let s = run start ops in
      let t = run s (retires h ∷ repeat (leases_on h s.held) (drops h)) in
      IsDrained h t × (wait_idle h (t.barrier ∷ []) ≡ some t.barrier)
unfolding run
retire_drains ops h room =
    let s = run start ops in
    let (left, idle, kept) =
      drops_drain (leases_on h s.held) h (step s (retires h)) (step_retires h s).0
        ((step_retires h s).1 ∙ (run-Counts ops room h).0) in
    ((kept ∙ (step_retires h s).2, left), wait_idle_returns h _ idle)
