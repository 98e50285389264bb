-- ===== src/HostOperation/Tests.antt =====
-- The theorems of `Steps` at concrete runs of the barrier.
use remote_deck.Base.{
  ◌≡◌, ◌↔◌, refl, none, some, List, [], ◌∷◌, arith, true, Text, codes, text_eq, map_operations,
}
use remote_deck.HostOperation.{entry, begin, is_idle, wait_idle, drop_lease, retire, restore}
use remote_deck.HostOperation.Steps.{
  Op, begins, drops, retires, System, start, run, repeat, leases_on, IsDrained, run-Counts,
  run-IsDrained, retire_drains, step, take_one,
}

barrier : Unit {0}
unfolding begin drop_lease retire restore is_idle wait_idle entry run step leases_on take_one
    map_operations
barrier = tt

abbrev lab : Text
lab = codes "lab"

abbrev history : List Op
history = begins lab ∷ begins lab ∷ begins (codes "gpu") ∷ drops lab ∷ []

abbrev retired_lab : System
retired_lab = run start (begins lab ∷ retires lab ∷ drops lab ∷ [])

begin_while_retired : (begin lab retired_lab.barrier).1 ≡ none
unfolding barrier
begin_while_retired = refl

retired_lab-IsDrained : IsDrained lab retired_lab
unfolding barrier
retired_lab-IsDrained = (refl, refl)

run-Counts_example :
    ((entry lab (run start history).barrier).active ≡ leases_on lab (run start history).held)
    × ((is_idle lab (run start history).barrier ≡ true)
        ↔ (leases_on lab (run start history).held ≡ 0))
run-Counts_example = run-Counts history (omega arith) lab

run-IsDrained_example :
    IsDrained lab (run retired_lab (begins lab ∷ drops lab ∷ begins (codes "gpu") ∷ []))
    × ((begin lab (run retired_lab (begins lab ∷ drops lab ∷ begins (codes "gpu") ∷ [])).barrier).1
        ≡ none)
unfolding text_eq
run-IsDrained_example =
    run-IsDrained lab retired_lab (begins lab ∷ drops lab ∷ begins (codes "gpu") ∷ []) refl
      retired_lab-IsDrained

retire_drains_example :
    let s = run start history in
    let t = run s (retires lab ∷ repeat (leases_on lab s.held) (drops lab)) in
    IsDrained lab t × (wait_idle lab (t.barrier ∷ []) ≡ some t.barrier)
retire_drains_example = retire_drains history lab (omega arith)
