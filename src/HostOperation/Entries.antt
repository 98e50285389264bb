-- ===== src/HostOperation/Entries.antt =====
-- What the barrier's operations do, seen through `entry`: what is known of each host.
use remote_deck.Base.{
  ◌-◌, ◌≡◌, refl, true, false, Option, none, some, inl, inr, arith, Text, text_eq, text_eq_iff, get,
  insert, remove, get-insert, get-remove, if◌then◌else◌, ◌↔◌, Bool-cases,
}
use remote_deck.HostOperation.{
  Barrier, HostOperationState, idle_state, entry, begin, drop_lease, retire, restore, is_idle,
  saturating_inc,
}

entry-insert :
    (j k : Text) (v : HostOperationState) (b : Barrier)
    → entry j (insert k v b) ≡ (if text_eq k j then v else entry j b)
unfolding entry
entry-insert j k v b = ground (arith, get-insert j k v b)

entry-remove :
    (j k : Text) (b : Barrier)
    → entry j (remove k b) ≡ (if text_eq k j then idle_state else entry j b)
unfolding entry
entry-remove j k b = ground (arith, get-remove j k b)

-- What each operation does to what is known of every host. A missing entry and an entry that is idle
-- and not retired are the same.
pub entry-begin :
    (g h : Text) (b : Barrier)
    → entry g (begin h b).0 ≡ (
        if text_eq h g
        then (if (entry h b).retired
            then entry h b
            else record (entry h b) { active = saturating_inc (entry h b).active })
        else entry g b)
unfolding begin entry
entry-begin g h b = elim (Bool-cases (entry h b).retired) [
  | inl e ↦ rw (e, begin) (entry-insert g h (entry h b) b)
  | inr e ↦ rw (e, begin) (entry-insert g h _ b)
]

drop_cases :
    (g h : Text) (b : Barrier) (o : Option HostOperationState)
    → get h b ≡ o
    → entry g (drop_lease h b)
      ≡ (if text_eq h g then record (entry h b) { active = (entry h b).active - 1 } else entry g b)
unfolding drop_lease entry
drop_cases g h b none e = ground (arith, text_eq_iff h g)
drop_cases g h b (some st) e = ground (
  arith,
  get-insert g h (record { active = st.active - 1; retired = st.retired }) b,
  get-remove g h b,
)

pub entry-drop_lease :
    (g h : Text) (b : Barrier)
    → entry g (drop_lease h b)
      ≡ (if text_eq h g then record (entry h b) { active = (entry h b).active - 1 } else entry g b)
entry-drop_lease g h b = drop_cases g h b (get h b) refl

pub entry-retire :
    (g h : Text) (b : Barrier)
    → entry g (retire h b)
      ≡ (if text_eq h g then record (entry h b) { retired = true } else entry g b)
unfolding retire
entry-retire g h b = entry-insert g h _ b

restore_cases :
    (g h : Text) (b : Barrier) (o : Option HostOperationState)
    → get h b ≡ o
    → entry g (restore h b)
      ≡ (if text_eq h g then record (entry h b) { retired = false } else entry g b)
unfolding restore entry
restore_cases g h b none e = ground (arith, text_eq_iff h g)
restore_cases g h b (some st) e =
    ground
      (arith, get-insert g h (record { active = st.active; retired = false }) b, get-remove g h b)

pub entry-restore :
    (g h : Text) (b : Barrier)
    → entry g (restore h b)
      ≡ (if text_eq h g then record (entry h b) { retired = false } else entry g b)
entry-restore g h b = restore_cases g h b (get h b) refl

pub is_idle_iff : (h : Text) (b : Barrier) → (is_idle h b ≡ true) ↔ ((entry h b).active ≡ 0)
unfolding is_idle entry
is_idle_iff h b = ground arith

pub begin_lease :
    (h : Text) (b : Barrier) → (begin h b).1 ≡ (if (entry h b).retired then none else some h)
unfolding begin
begin_lease h b = ground arith
