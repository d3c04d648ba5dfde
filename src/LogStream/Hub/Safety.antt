-- ===== src/LogStream/Hub/Safety.antt =====
-- No step of the hub sends on a closed channel or closes one twice.
use firefik.Prelude.{
  ℕ, ◌+◌, ◌≤◌, ◌≡◌, ◌≢◌, refl, sym, subst, ap, Bool, true, false, not, ◌&&◌, ◌||◌, List, [], ◌∷◌,
  ◌++◌, Text, length, ltb, ◌==◌, Bool-cases, if_ind, inl, inr, arith,
}
use firefik.LogStream.Hub.{
  Message, Hub, RunState, waiting, visiting, stopped, StepResult, panics, set_at, fresh_client,
  members, has, remove_first, unlocked, on_register, on_unregister, on_broadcast, end_step,
  receive_from, when_waiting, perform, HubAction, Run, here, later, new_hub, take_register,
  take_unregister, take_broadcast, announce, deliver, end_broadcast, cancel, call_broadcast,
  call_subscribe, insert_late, call_unsubscribe, delete_late, receive, broadcast_capacity,
  register_capacity,
}
use firefik.LogStream.Hub.Places.{bit, count, count-append, count-remove_first, IsSound}
use firefik.LogStream.Hub.Steps.{
  Safe, add-IsSound, remove-Safe, members-Falls, members-All, shut_down-Safe, announce-Safe,
  deliver-Safe, update-IsSound, run-IsSound,
}

waiting-Safe : (r : RunState) (x : StepResult) → (r ≡ waiting → Safe x) → Safe (when_waiting r x)
waiting-Safe waiting x h = h refl
waiting-Safe (visiting m told todo) x h = tt
waiting-Safe stopped x h = tt

free_of : (r : RunState) → r ≡ waiting → unlocked r ≡ true
free_of r e = ap unlocked e

register-Safe : (q : List ℕ) (h : Hub) → IsSound h → h.register ≡ q → Safe (on_register q h)
register-Safe [] h s e = tt
register-Safe (c ∷ cs) h s e = add-IsSound c h cs h.late_register s (λ j.
    subst
      (λ q.
        count j cs + (count j h.late_register + bit (c == j)) ≡ count j q + count j h.late_register)
      (sym e) (omega arith))

unregister-Safe :
    (q : List ℕ) (h : Hub) → IsSound h → unlocked h.run ≡ true → Safe (on_unregister q h)
unregister-Safe [] h s free = tt
unregister-Safe (c ∷ cs) h s free =
    remove-Safe c (record h { unregister = cs })
      (record { one_place = s.one_place; unborn = s.unborn; members_only = s.members_only }) free

broadcast-Safe : (q : List Text) (h : Hub) → IsSound h → Safe (on_broadcast q h)
broadcast-Safe [] h s = tt
broadcast-Safe (m ∷ ms) h s = record {
  one_place = s.one_place;
  unborn = s.unborn;
  members_only = members-All h.next h.clients;
}

end-Safe : (r : RunState) (h : Hub) → IsSound h → Safe (end_step r h)
end-Safe waiting h s = tt
end-Safe stopped h s = tt
end-Safe (visiting m true todo) h s = tt
end-Safe (visiting m false []) h s = run-IsSound h waiting s tt
end-Safe (visiting m false (d ∷ ds)) h s = tt

receive-Safe : (c : ℕ) (q : List Message) (h : Hub) → IsSound h → Safe (receive_from c q h)
receive-Safe c [] h s = tt
receive-Safe c (m ∷ ms) h s =
    update-IsSound c (record (h.store c) { send = ms; received = (h.store c).received ++ m ∷ [] }) h
      s refl

-- A new client stands in one queue.
subscribe-IsSound :
    (h : Hub) (rs ls : List ℕ)
    → IsSound h
    → ((j : ℕ)
        → count j rs + count j ls
          ≡ count j h.register + (count j h.late_register + bit (h.next == j)))
    → IsSound (record h {
      store = set_at h.next fresh_client h.store;
      next = h.next + 1;
      register = rs;
      late_register = ls;
    })
subscribe-IsSound h rs ls s moved = record {
  one_place = λ j. elim (Bool-cases (j == h.next)) [
    | inl is ↦
        rw is (omega (arith, moved j, s.unborn j (ground (arith, is)), at_most_one (h.next == j)))
    | inr other ↦ rw other (omega (arith, moved j, s.one_place j, apart j other))
  ];
  unborn = λ j le. omega (arith, moved j, s.unborn j (omega arith), apart j (ground arith));
  members_only = s.members_only;
}
  where
    at_most_one : (b : Bool) → bit b ≤ 1
    at_most_one true = omega arith
    at_most_one false = omega arith

    apart : (j : ℕ) → (j == h.next) ≡ false → bit (h.next == j) ≡ 0
    apart j other = ground (arith, other)

and_parts : (a b : Bool) → (a && b) ≡ true → (a ≡ true) × (b ≡ true)
and_parts true b h = (refl, h)
and_parts false b h = cc

perform-Safe : (a : HubAction) (h : Hub) → IsSound h → Safe (perform a h)
unfolding perform
perform-Safe take_register h s = waiting-Safe h.run _ (λ _. register-Safe h.register h s refl)
perform-Safe take_unregister h s =
    waiting-Safe h.run _ (λ w. unregister-Safe h.unregister h s (free_of h.run w))
perform-Safe take_broadcast h s = waiting-Safe h.run _ (λ _. broadcast-Safe h.broadcast h s)
perform-Safe (announce c) h s = announce-Safe c h.run h s refl
perform-Safe (deliver c) h s = deliver-Safe c h.run h s refl
perform-Safe end_broadcast h s = end-Safe h.run h s
perform-Safe cancel h s = waiting-Safe h.run _ (λ _.
    shut_down-Safe (members h.next h.clients) (record h { run = stopped })
      (run-IsSound h stopped s tt) refl (members-Falls h.next h.clients)
      (members-All h.next h.clients))
perform-Safe (call_broadcast m) h s =
    if_ind Safe (ltb (length h.broadcast) broadcast_capacity)
      (λ _. record { one_place = s.one_place; unborn = s.unborn; members_only = s.members_only })
      (λ _. s)
perform-Safe call_subscribe h s =
    if_ind Safe (ltb (length h.register) register_capacity)
      (λ _.
        subscribe-IsSound h (h.register ++ h.next ∷ []) h.late_register s
          (λ j. omega (arith, count-append j h.next h.register)))
      (λ _. subscribe-IsSound h h.register (h.next ∷ h.late_register) s (λ j. omega arith))
perform-Safe (insert_late c) h s =
    if_ind Safe (has c h.late_register && unlocked h.run)
      (λ both.
        add-IsSound c h h.register (remove_first c h.late_register) s
          (λ j. omega (arith, count-remove_first c j h.late_register (and_parts _ _ both).0)))
      (λ _. tt)
perform-Safe (call_unsubscribe c) h s =
    if_ind Safe (not (ltb c h.next) || has c h.late_register) (λ _. tt)
      (λ _.
        if_ind Safe (ltb (length h.unregister) register_capacity)
          (λ _. record {
            one_place = s.one_place;
            unborn = s.unborn;
            members_only = s.members_only;
          })
          (λ _. record {
            one_place = s.one_place;
            unborn = s.unborn;
            members_only = s.members_only;
          }))
perform-Safe (delete_late c) h s =
    if_ind Safe (has c h.late_unregister && unlocked h.run)
      (λ both.
        remove-Safe c (record h { late_unregister = remove_first c h.late_unregister })
          (record { one_place = s.one_place; unborn = s.unborn; members_only = s.members_only })
          (and_parts _ _ both).1)
      (λ _. tt)
perform-Safe (receive c) h s = receive-Safe c (h.store c).send h s

new_hub-IsSound : IsSound new_hub
unfolding new_hub
new_hub-IsSound = record { one_place = λ c. omega arith; unborn = λ c le. refl; members_only = tt }

pub Run-IsSound : {actions : List HubAction} {h : Hub} → Run new_hub actions h → IsSound h
Run-IsSound here = new_hub-IsSound
Run-IsSound (later {h = h} a r e) = subst Safe e (perform-Safe a h (Run-IsSound r))

-- Whatever callers subscribe, read and unsubscribe, in whatever order with the loop: no step of the
-- hub sends on a closed channel or closes a channel twice.
pub perform-no_panic :
    {actions : List HubAction} {h : Hub} (a : HubAction)
    → Run new_hub actions h
    → perform a h ≢ panics
perform-no_panic {h} a r e = subst Safe e (perform-Safe a h (Run-IsSound r))
