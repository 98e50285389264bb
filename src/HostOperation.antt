-- ===== src/HostOperation.antt =====
-- crates/remotedeck-core/src/host_operation.rs: the barrier between resolving a host and deleting it.
-- The shared map of hosts is the state; a lease is the host that it holds. The lock makes each
-- operation one step.
pub mod Entries
pub mod Steps
mod Tests
use remote_deck.Base.{
  ℕ, ◌+◌, ◌-◌, ◌^◌, Bool, true, false, Option, none, some, List, [], ◌∷◌, ◌&&◌, not, Text, Map, get,
  insert, remove, ltb, ◌==◌, if◌then◌else◌, unwrap_or, is_none_or,
}

-- `usize::MAX` on the x64 target.
abbrev pub usize_max : ℕ
usize_max = 2 ^ 64 - 1

pub record HostOperationState : Type 0 where
  pub active : ℕ
  pub retired : Bool

-- `HostOperationState::default`.
abbrev pub idle_state : HostOperationState
idle_state = record { active = 0; retired = false }

abbrev pub Barrier : Type 0
Barrier = Map HostOperationState

-- `usize::saturating_add(1)`.
unfoldable pub saturating_inc : ℕ → ℕ
saturating_inc n = if ltb n usize_max then n + 1 else usize_max

-- `entry(host_id).or_default()`.
unfoldable pub entry : Text → Barrier → HostOperationState
entry host b = unwrap_or (get host b) idle_state

unfoldable pub begin : Text → Barrier → Barrier × Option Text
unfolding saturating_inc
begin host b =
    let state = entry host b in
    if state.retired
    then (insert host state b, none)
    else (insert host (record state { active = saturating_inc state.active }) b, some host)

-- `Drop for HostOperationLease`.
unfoldable pub drop_lease : Text → Barrier → Barrier
drop_lease host b = elim (get host b) [
  | none ↦ b
  | some state ↦
      let active : ℕ = state.active - 1 in
      if active == 0 && not state.retired
      then remove host b
      else insert host (record state { active = active }) b
]

unfoldable pub retire : Text → Barrier → Barrier
retire host b = insert host (record (entry host b) { retired = true }) b

-- One check of the loop in `wait_idle`.
unfoldable pub is_idle : Text → Barrier → Bool
is_idle host b = is_none_or (get host b) (λ state. state.active == 0)

-- `wait_idle` over the barriers that its checks see, one for each notification: what is left when
-- it returns, `none` while it still waits.
unfoldable pub wait_idle : Text → List Barrier → Option Barrier
unfolding is_idle
wait_idle host [] = none
wait_idle host (b ∷ later) =
    let rest = wait_idle host later in if is_idle host b then some b else rest

unfoldable pub restore : Text → Barrier → Barrier
restore host b = elim (get host b) [
  | none ↦ b
  | some state ↦
      if state.active == 0 then remove host b else insert host (record state { retired = false }) b
]
