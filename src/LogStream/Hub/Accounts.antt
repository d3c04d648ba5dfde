-- ===== src/LogStream/Hub/Accounts.antt =====
-- What becomes of the messages of the log: each one that the loop offers to a client is in its channel or
-- read, announced as dropped, or still counted as dropped.
use firefik.Prelude.{
  ℕ, ◌+◌, ◌^◌, ◌≤◌, ◌<◌, ◌≡◌, refl, sym, subst, ◌∙◌, Bool, true, false, not, ◌&&◌, ◌||◌, List, [],
  ◌∷◌, ◌++◌, All, Text, length, ltb, ◌==◌, ==_eq, if_ind, lt-or-ge, inl, inr, arith,
}
use firefik.LogStream.Hub.{
  Message, Hub, RunState, waiting, visiting, stopped, StepResult, done, blocked, panics,
  fresh_client, members, has, remove_first, unlocked, on_register, on_unregister, on_broadcast,
  deliver_step, end_step, receive_from, when_waiting, perform, HubAction, Run, here, later, new_hub,
  take_register, take_unregister, take_broadcast, announce, deliver, end_broadcast, cancel,
  call_broadcast, call_subscribe, insert_late, call_unsubscribe, delete_late, receive,
  broadcast_capacity, register_capacity, add_client,
}
use firefik.LogStream.Hub.Places.{bit, Todo, IsSound}
use firefik.LogStream.Hub.Safety.{Run-IsSound}
use firefik.LogStream.Hub.Amounts.{
  weight, total, accounted, Adds, nothing, unchanged, update_same, remove-Adds, shut_down-Adds,
  announce-Adds, deliver-Adds,
}

-- The messages of the log that the loop offered to a client.
abbrev pub offers : ℕ → HubAction → ℕ
offers c (deliver d) = bit (d == c)
offers c _ = 0

abbrev pub offered : ℕ → List HubAction → ℕ
offered c [] = 0
offered c (a ∷ as_) = offers c a + offered c as_

waiting-Adds :
    (r : RunState) (h : Hub) (x : StepResult) → Adds nothing h x → Adds nothing h (when_waiting r x)
waiting-Adds waiting h x a = a
waiting-Adds (visiting m told todo) h x a = tt
waiting-Adds stopped h x a = tt

register-Adds : (q : List ℕ) (h : Hub) → Adds nothing h (on_register q h)
unfolding add_client
register-Adds [] h = tt
register-Adds (c ∷ cs) h = (omega arith, unchanged h)

unregister-Adds : (q : List ℕ) (h : Hub) → Adds nothing h (on_unregister q h)
unregister-Adds [] h = tt
unregister-Adds (c ∷ cs) h = remove-Adds c (record h { unregister = cs })

broadcast-Adds : (q : List Text) (h : Hub) → Adds nothing h (on_broadcast q h)
broadcast-Adds [] h = tt
broadcast-Adds (m ∷ ms) h = (omega arith, unchanged h)

end-Adds : (r : RunState) (h : Hub) → Adds nothing h (end_step r h)
end-Adds waiting h = tt
end-Adds stopped h = tt
end-Adds (visiting m true todo) h = tt
end-Adds (visiting m false []) h = (omega arith, unchanged h)
end-Adds (visiting m false (d ∷ ds)) h = tt

total-read : (ms : List Message) (m : Message) → total (ms ++ m ∷ []) ≡ total ms + weight m
total-read [] m = omega arith
total-read (x ∷ ms) m = omega (arith, total-read ms m)

receive-Adds :
    (c : ℕ) (q : List Message) (h : Hub)
    → (h.store c).send ≡ q
    → Adds nothing h (receive_from c q h)
receive-Adds c [] h e = tt
receive-Adds c (m ∷ ms) h e = (
  omega arith,
  update_same c (record (h.store c) { send = ms; received = (h.store c).received ++ m ∷ [] })
      h.store
      (subst
        (λ q.
          total ((h.store c).received ++ m ∷ []) + (total ms + (h.store c).drop_count)
          ≡ total (h.store c).received + (total q + (h.store c).drop_count))
        (sym e) (omega (arith, total-read (h.store c).received m))),
)

perform-Adds :
    (a : HubAction) (h : Hub)
    → accounted (h.store h.next) ≡ 0
    → ((c : ℕ) → accounted (h.store c) + 1 < 2 ^ 64)
    → Adds (λ c. offers c a) h (perform a h)
unfolding perform
perform-Adds take_register h new below = waiting-Adds h.run h _ (register-Adds h.register h)
perform-Adds take_unregister h new below = waiting-Adds h.run h _ (unregister-Adds h.unregister h)
perform-Adds take_broadcast h new below = waiting-Adds h.run h _ (broadcast-Adds h.broadcast h)
perform-Adds (announce c) h new below = announce-Adds c h.run h
perform-Adds (deliver c) h new below = deliver-Adds c h.run h (below c)
perform-Adds end_broadcast h new below = end-Adds h.run h
perform-Adds cancel h new below =
    waiting-Adds h.run h _ (shut_down-Adds (members h.next h.clients) (record h { run = stopped }))
perform-Adds (call_broadcast m) h new below =
    if_ind (Adds nothing h) (ltb (length h.broadcast) broadcast_capacity)
      (λ _. (omega arith, unchanged h)) (λ _. (omega arith, unchanged h))
perform-Adds call_subscribe h new below =
    if_ind (Adds nothing h) (ltb (length h.register) register_capacity)
      (λ _. (omega arith, update_same h.next fresh_client h.store (sym new)))
      (λ _. (omega arith, update_same h.next fresh_client h.store (sym new)))
perform-Adds (insert_late c) h new below =
    if_ind (Adds nothing h) (has c h.late_register && unlocked h.run)
      (λ _. (omega arith, unchanged h)) (λ _. tt)
perform-Adds (call_unsubscribe c) h new below =
    if_ind (Adds nothing h) (not (ltb c h.next) || has c h.late_register) (λ _. tt)
      (λ _.
        if_ind (Adds nothing h) (ltb (length h.unregister) register_capacity)
          (λ _. (omega arith, unchanged h)) (λ _. (omega arith, unchanged h)))
perform-Adds (delete_late c) h new below =
    if_ind (Adds nothing h) (has c h.late_unregister && unlocked h.run)
      (λ _. remove-Adds c (record h { late_unregister = remove_first c h.late_unregister }))
      (λ _. tt)
perform-Adds (receive c) h new below = receive-Adds c (h.store c).send h refl

-- A message is offered to clients that are born only.
abbrev BornOnly : ℕ → ℕ → StepResult → Type 0
BornOnly c n (done h') = c < n
BornOnly c n blocked = Unit
BornOnly c n panics = Unit

deliver-born :
    (c : ℕ) (r : RunState) (h : Hub)
    → IsSound h
    → h.run ≡ r
    → BornOnly c h.next (deliver_step c r h)
unfolding deliver_step
deliver-born c waiting h s e = tt
deliver-born c stopped h s e = tt
deliver-born c (visiting m false todo) h s e = tt
deliver-born c (visiting m true []) h s e = tt
deliver-born c (visiting m true (d ∷ ds)) h s e =
    if_ind (BornOnly c h.next) (not (d == c)) (λ _. tt)
      λ is.
        if_ind (BornOnly c h.next) (h.store c).is_open
          (λ _. born (subst (λ x. h.clients x ≡ true) (==_eq (ground (arith, is))) todo.0))
          (λ _. tt)
  where
    todo : All (λ x. h.clients x ≡ true) (d ∷ ds)
    todo = subst (Todo h.clients) e s.members_only

    born : h.clients c ≡ true → c < h.next
    born member = elim (lt-or-ge c h.next) [
      | inl lt ↦ lt
      | inr le ↦ absurd (omega (arith, s.unborn c le, subst (λ b. bit b ≡ 1) (sym member) refl))
    ]

perform-deliver : (d : ℕ) (h : Hub) → perform (deliver d) h ≡ deliver_step d h.run h
unfolding perform
perform-deliver d h = refl

offers-unborn :
    (a : HubAction) (h h' : Hub) (c : ℕ)
    → IsSound h
    → perform a h ≡ done h'
    → h.next ≤ c
    → offers c a ≡ 0
offers-unborn (deliver d) h h' c s e le = apart born
  where
    born : d < h.next
    born = subst (BornOnly d h.next) (sym (perform-deliver d h) ∙ e) (deliver-born d h.run h s refl)

    apart : d < h.next → bit (d == c) ≡ 0
    apart lt = ground arith
offers-unborn a h h' c s e le = refl

offered-le : (c : ℕ) (actions : List HubAction) → offered c actions ≤ length actions
offered-le c [] = omega arith
offered-le c (a ∷ actions) = omega (arith, offered-le c actions, small a)
  where
    small : (a : HubAction) → offers c a ≤ 1
    small (deliver d) = bit_le (d == c)
      where
        bit_le : (b : Bool) → bit b ≤ 1
        bit_le true = omega arith
        bit_le false = omega arith
    small a = omega arith

-- The account of every client, and nothing for those that are not born.
run-accounts :
    {actions : List HubAction} {h : Hub}
    → Run new_hub actions h
    → length actions < 2 ^ 64
    → (c : ℕ) → (accounted (h.store c) ≡ offered c actions) × (h.next ≤ c → offered c actions ≡ 0)
unfolding new_hub
run-accounts here short c = (refl, λ le. refl)
run-accounts (later {actions} {h} {h'} a r e) short c =
    let before = run-accounts r (omega arith) in
    let fresh : accounted (h.store h.next) ≡ 0 =
      omega (arith, (before h.next).0, (before h.next).1 (omega arith)) in
    let small : (d : ℕ) → accounted (h.store d) + 1 < 2 ^ 64 =
      λ d. omega (arith, (before d).0, offered-le d actions) in
    let (le, adds) = subst (Adds (λ d. offers d a) h) e (perform-Adds a h fresh small) in
    (
      omega (arith, adds c, (before c).0),
      λ unborn. omega (
        arith,
        (before c).1 (omega arith),
        offers-unborn a h h' c (Run-IsSound r) e (omega arith),
      ),
    )

-- In fewer than 2 ^ 64 steps from a new hub: for each client, the messages of the log that it has
-- read or has in its channel, those announced to it as dropped, and its drop counter together are
-- all the messages that the loop offered to it.
pub run-accounted :
    {actions : List HubAction} {h : Hub} (c : ℕ)
    → Run new_hub actions h
    → length actions < 2 ^ 64
    → accounted (h.store c) ≡ offered c actions
run-accounted c r short = (run-accounts r short c).0
