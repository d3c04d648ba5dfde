-- ===== src/LogStream/Hub/Progress.antt =====
-- The loop comes back to its `select` from any message, whatever the clients' channels hold.
use firefik.Prelude.{
  ℕ, ◌≡◌, refl, sym, subst, ◌∙◌, ap, Bool, true, false, not, List, [], ◌∷◌, All, Text, ◌==◌, if_ind,
  arith,
}
use firefik.LogStream.Hub.{
  Hub, RunState, waiting, visiting, StepResult, done, blocked, panics, announce_to, deliver_to,
  announce_step, deliver_step, update_client, perform, HubAction, Run, new_hub, announce, deliver,
  end_broadcast,
}
use firefik.LogStream.Hub.Places.{Todo, IsSound, member_open}
use firefik.LogStream.Hub.Steps.{Safe, announce-Safe, deliver-Safe}
use firefik.LogStream.Hub.Safety.{Run-IsSound}

abbrev on_done : (Hub → StepResult) → StepResult → StepResult
on_done f (done h) = f h
on_done f blocked = blocked
on_done f panics = panics

-- Steps one after the other.
unfoldable pub perform_all : List HubAction → Hub → StepResult
unfolding perform
perform_all [] h = done h
perform_all (a ∷ actions) h = on_done (perform_all actions) (perform a h)

-- The steps of the loop from its place among the clients.
abbrev pub rounds : List ℕ → List HubAction
rounds [] = end_broadcast ∷ []
rounds (c ∷ cs) = announce c ∷ deliver c ∷ rounds cs

abbrev pub rounds_from : Bool → List ℕ → List HubAction
rounds_from false todo = rounds todo
rounds_from true [] = rounds []
rounds_from true (c ∷ cs) = deliver c ∷ rounds cs

-- The step goes on, and the loop is where it says.
abbrev Goes : RunState → StepResult → Type 0
Goes r x = (h : Hub) × (x ≡ done h) × (h.run ≡ r)

self : (c : ℕ) → (c == c) ≡ true
self c = ground arith

opens :
    (c : ℕ) (ds : List ℕ) (m : Text) (told : Bool) (h : Hub)
    → IsSound h
    → h.run ≡ visiting m told (c ∷ ds)
    → (h.store c).is_open ≡ true
opens c ds m told h s e =
    let todo : All (λ x. h.clients x ≡ true) (c ∷ ds) = subst (Todo h.clients) e s.members_only in
    member_open h s c todo.0

announce-Goes :
    (c : ℕ) (ds : List ℕ) (m : Text) (h : Hub)
    → IsSound h
    → h.run ≡ visiting m false (c ∷ ds)
    → Goes (visiting m true (c ∷ ds)) (announce_step c (visiting m false (c ∷ ds)) h)
unfolding announce_step
announce-Goes c ds m h s e =
    if_ind (Goes (visiting m true (c ∷ ds))) (not (c == c))
      (λ no. let clash : false ≡ true = sym (ap not (self c)) ∙ no in cc)
      λ _.
        if_ind (Goes (visiting m true (c ∷ ds))) ((h.store c).drop_count == 0)
          (λ _. (record h { run = visiting m true (c ∷ ds) }, refl, refl))
          λ _.
            if_ind (Goes (visiting m true (c ∷ ds))) (h.store c).is_open
              (λ _. (
                update_client c (announce_to (h.store c))
                    (record h { run = visiting m true (c ∷ ds) }),
                refl,
                refl,
              ))
              (λ shut. let clash : true ≡ false = sym (opens c ds m false h s e) ∙ shut in cc)

deliver-Goes :
    (c : ℕ) (ds : List ℕ) (m : Text) (h : Hub)
    → IsSound h
    → h.run ≡ visiting m true (c ∷ ds)
    → Goes (visiting m false ds) (deliver_step c (visiting m true (c ∷ ds)) h)
unfolding deliver_step
deliver-Goes c ds m h s e =
    if_ind (Goes (visiting m false ds)) (not (c == c))
      (λ no. let clash : false ≡ true = sym (ap not (self c)) ∙ no in cc)
      λ _.
        if_ind (Goes (visiting m false ds)) (h.store c).is_open
          (λ _. (
            update_client c (deliver_to m (h.store c)) (record h { run = visiting m false ds }),
            refl,
            refl,
          ))
          (λ shut. let clash : true ≡ false = sym (opens c ds m true h s e) ∙ shut in cc)

module _ (m : Text) where
  Back : List HubAction → Hub → Type 0
  Back actions h = Goes waiting (perform_all actions h)

  end-Back : (h : Hub) → h.run ≡ visiting m false [] → Back (rounds []) h
  unfolding perform_all Back
  end-Back h e = rw e (record h { run = waiting }, refl, refl)

  then-Back :
      (a : HubAction) (actions : List HubAction) (h h' : Hub)
      → perform a h ≡ done h'
      → Back actions h'
      → Back (a ∷ actions) h
  unfolding perform_all Back
  then-Back a actions h h' e b =
      subst (λ r. Goes waiting (on_done (perform_all actions) r)) (sym e) b

  announce-perform :
      (c : ℕ) (ds : List ℕ) (h : Hub)
      → IsSound h
      → h.run ≡ visiting m false (c ∷ ds)
      → (h' : Hub) × (perform (announce c) h ≡ done h')
        × (h'.run ≡ visiting m true (c ∷ ds))
        × IsSound h'
  unfolding perform
  announce-perform c ds h s e =
      let (h', is, run) = announce-Goes c ds m h s e in
      let step : announce_step c h.run h ≡ done h' = ap (λ r. announce_step c r h) e ∙ is in
      (h', step, run, subst Safe step (announce-Safe c h.run h s refl))

  deliver-perform :
      (c : ℕ) (ds : List ℕ) (h : Hub)
      → IsSound h
      → h.run ≡ visiting m true (c ∷ ds)
      → (h' : Hub) × (perform (deliver c) h ≡ done h') × (h'.run ≡ visiting m false ds) × IsSound h'
  unfolding perform
  deliver-perform c ds h s e =
      let (h', is, run) = deliver-Goes c ds m h s e in
      let step : deliver_step c h.run h ≡ done h' = ap (λ r. deliver_step c r h) e ∙ is in
      (h', step, run, subst Safe step (deliver-Safe c h.run h s refl))

  rounds-Back :
      (todo : List ℕ) (h : Hub) → IsSound h → h.run ≡ visiting m false todo → Back (rounds todo) h
  rounds-Back [] h s e = end-Back h e
  rounds-Back (c ∷ cs) h s e =
      let (h', step, run, s') = announce-perform c cs h s e in
      let (h'', step', run', s'') = deliver-perform c cs h' s' run in
      then-Back (announce c) (deliver c ∷ rounds cs) h h' step
        (then-Back (deliver c) (rounds cs) h' h'' step' (rounds-Back cs h'' s'' run'))

  from-Back :
      (told : Bool) (c : ℕ) (cs : List ℕ) (h : Hub)
      → IsSound h
      → h.run ≡ visiting m told (c ∷ cs)
      → Back (rounds_from told (c ∷ cs)) h
  from-Back false c cs h s e = rounds-Back (c ∷ cs) h s e
  from-Back true c cs h s e =
      let (h', step, run, s') = deliver-perform c cs h s e in
      then-Back (deliver c) (rounds cs) h h' step (rounds-Back cs h' s' run)

  -- From any reachable state in which the loop is at a client with a message, its own two steps for
  -- each client left and its last step go through without a reader's step, and it is back at its
  -- `select`.
  pub run-returns :
      {actions : List HubAction} {h : Hub} (told : Bool) (c : ℕ) (cs : List ℕ)
      → Run new_hub actions h
      → h.run ≡ visiting m told (c ∷ cs)
      → (h' : Hub) × (perform_all (rounds_from told (c ∷ cs)) h ≡ done h') × (h'.run ≡ waiting)
  unfolding Back
  run-returns {h} told c cs r e = from-Back told c cs h (Run-IsSound r) e
