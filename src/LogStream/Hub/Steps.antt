-- ===== src/LogStream/Hub/Steps.antt =====
-- What changes a client or the map keeps each client in one place at most.
use firefik.Prelude.{
  ℕ, zero, suc, ◌+◌, ◌≤◌, ◌<◌, ◌≡◌, refl, sym, subst, ◌∙◌, ap, Bool, true, false, not, List, [],
  ◌∷◌, All, Text, length, ltb, ◌==◌, ==_eq, Bool-cases, if_ind, inl, inr, arith,
}
use firefik.LogStream.Hub.{
  server_shutdown, Client, Hub, RunState, waiting, visiting, stopped, StepResult, done, blocked,
  panics, set_at, closed, try_send, add_client, remove_client, members, shut_down, unlocked,
  update_client, announce_to, deliver_to, announce_step, deliver_step, send_capacity,
}
use firefik.LogStream.Hub.Places.{bit, count, places, Todo, IsSound, member_open}

-- The step does not panic, and its result is sound.
abbrev pub Safe : StepResult → Type 0
Safe (done h) = IsSound h
Safe blocked = Unit
Safe panics = ⊥

set_true-Todo :
    (c : ℕ) (clients : ℕ → Bool) (todo : List ℕ)
    → All (λ d. clients d ≡ true) todo
    → All (λ d. set_at c true clients d ≡ true) todo
set_true-Todo c clients [] t = tt
set_true-Todo c clients (d ∷ ds) (h, t) = (ground (arith, h), set_true-Todo c clients ds t)

pub set_true-run :
    (c : ℕ) (clients : ℕ → Bool) (run : RunState)
    → Todo clients run
    → Todo (set_at c true clients) run
set_true-run c clients waiting t = tt
set_true-run c clients (visiting m told todo) t = set_true-Todo c clients todo t
set_true-run c clients stopped t = tt

unlocked-Todo : (f : ℕ → Bool) (run : RunState) → unlocked run ≡ true → Todo f run
unlocked-Todo f waiting h = tt
unlocked-Todo f stopped h = tt
unlocked-Todo f (visiting m told todo) h = cc

bit-set_true : (c j : ℕ) (f : ℕ → Bool) → bit (set_at c true f j) ≤ bit (f j) + bit (c == j)
bit-set_true c j f = elim (Bool-cases (j == c)) [
  | inl same ↦ rw (same, ==_eq same) (ground arith)
  | inr other ↦ rw other (omega arith)
]

-- A client that moves into the map from where it stood.
pub add-IsSound :
    (c : ℕ) (h : Hub) (rs ls : List ℕ)
    → IsSound h
    → ((j : ℕ)
        → count j rs + (count j ls + bit (c == j)) ≡ count j h.register + count j h.late_register)
    → IsSound (add_client c (record h { register = rs; late_register = ls }))
unfolding add_client
add-IsSound c h rs ls s moved = record {
  one_place = λ j. omega (arith, s.one_place j, moved j, bit-set_true c j h.clients);
  unborn = λ j le. omega (arith, s.unborn j le, moved j, bit-set_true c j h.clients);
  members_only = set_true-run c h.clients h.run s.members_only;
}

-- The channel of a client in the map is closed, and the client leaves the map; `cl` is what it holds.
delete-IsSound :
    (c : ℕ) (cl : Client) (h : Hub)
    → IsSound h
    → h.clients c ≡ true
    → unlocked h.run ≡ true
    → IsSound
        (record h { clients = set_at c false h.clients; store = set_at c (closed cl) h.store })
delete-IsSound c cl h s member free = record {
  one_place = λ j. elim (Bool-cases (j == c)) [
    | inl same ↦
        rw (same, ==_eq same)
          (omega (arith, s.one_place c, at_most_one (h.store c).is_open, ap bit member))
    | inr other ↦ rw other (s.one_place j)
  ];
  unborn = λ j le. elim (Bool-cases (j == c)) [
    | inl same ↦ rw same (omega (arith, s.unborn j le))
    | inr other ↦ rw other (s.unborn j le)
  ];
  members_only = unlocked-Todo _ h.run free;
}
  where
    at_most_one : (b : Bool) → bit b ≤ 1
    at_most_one true = omega arith
    at_most_one false = omega arith

-- What does not move a client or close a channel keeps soundness.
pub remove-Safe : (c : ℕ) (h : Hub) → IsSound h → unlocked h.run ≡ true → Safe (remove_client c h)
unfolding remove_client
remove-Safe c h s free =
    if_ind Safe (h.clients c)
      (λ member. rw (member_open h s c member) (delete-IsSound c (h.store c) h s member free))
      (λ _. s)

-- The clients from the greatest down.
abbrev Falls : List ℕ → Type 0
Falls [] = Unit
Falls (c ∷ cs) = All (λ d. d < c) cs × Falls cs

All-map {ℓ} :
    {A : Type ℓ} {P Q : A → Type 0} → ((a : A) → P a → Q a) → (xs : List A) → All P xs → All Q xs
All-map f [] t = tt
All-map f (x ∷ xs) (h, t) = (f x h, All-map f xs t)

members-below : (n : ℕ) (clients : ℕ → Bool) → All (λ d. d < n) (members n clients)
unfolding members
members-below zero clients = tt
members-below (suc n) clients =
    if_ind (All (λ d. d < suc n)) (clients n)
      (λ _.
        (omega arith, All-map (λ d lt. omega arith) (members n clients) (members-below n clients)))
      (λ _. All-map (λ d lt. omega arith) (members n clients) (members-below n clients))

pub members-Falls : (n : ℕ) (clients : ℕ → Bool) → Falls (members n clients)
unfolding members
members-Falls zero clients = tt
members-Falls (suc n) clients =
    if_ind Falls (clients n) (λ _. (members-below n clients, members-Falls n clients))
      (λ _. members-Falls n clients)

pub members-All : (n : ℕ) (clients : ℕ → Bool) → All (λ c. clients c ≡ true) (members n clients)
unfolding members
members-All zero clients = tt
members-All (suc n) clients =
    if_ind (All (λ c. clients c ≡ true)) (clients n) (λ is. (is, members-All n clients))
      (λ _. members-All n clients)

pub shut_down-Safe :
    (cs : List ℕ) (h : Hub)
    → IsSound h
    → unlocked h.run ≡ true
    → Falls cs
    → All (λ c. h.clients c ≡ true) cs
    → Safe (shut_down cs h)
unfolding shut_down
shut_down-Safe [] h s free falls ms = s
shut_down-Safe (c ∷ cs) h s free (below, falls) (member, ms) =
    if_ind Safe (h.store c).is_open
      (λ _.
        shut_down-Safe cs
          (record h {
            clients = set_at c false h.clients;
            store = set_at c (closed (try_send server_shutdown (h.store c))) h.store;
          })
          (delete-IsSound c (try_send server_shutdown (h.store c)) h s member free) free falls
          (keep cs below ms))
      (λ shut. let clash : true ≡ false = sym (member_open h s c member) ∙ shut in cc)
  where
    keep :
        (ds : List ℕ)
        → All (λ d. d < c) ds
        → All (λ d. h.clients d ≡ true) ds
        → All (λ d. set_at c false h.clients d ≡ true) ds
    keep [] b t = tt
    keep (d ∷ ds) (lt, b) (m, t) = (ground (arith, m), keep ds b t)

-- A client whose channel stays open or closed.
pub update-IsSound :
    (c : ℕ) (cl : Client) (h : Hub)
    → IsSound h
    → cl.is_open ≡ (h.store c).is_open
    → IsSound (update_client c cl h)
update-IsSound c cl h s same = record {
  one_place = λ j. elim (Bool-cases (j == c)) [
    | inl is ↦ rw is (
        subst (λ b. places j h ≤ bit b) (sym same)
          (subst (λ i. places j h ≤ bit (h.store i).is_open) (==_eq is) (s.one_place j)))
    | inr other ↦ rw other (s.one_place j)
  ];
  unborn = s.unborn;
  members_only = s.members_only;
}

announce_to-open : (cl : Client) → (announce_to cl).is_open ≡ cl.is_open
unfolding announce_to
announce_to-open cl =
    if_ind (λ (x : Client). x.is_open ≡ cl.is_open) (ltb (length cl.send) send_capacity) (λ _. refl)
      (λ _. refl)

deliver_to-open : (m : Text) (cl : Client) → (deliver_to m cl).is_open ≡ cl.is_open
unfolding deliver_to
deliver_to-open m cl =
    if_ind (λ (x : Client). x.is_open ≡ cl.is_open) (ltb (length cl.send) send_capacity) (λ _. refl)
      (λ _. refl)

pub run-IsSound :
    (h : Hub) (r : RunState) → IsSound h → Todo h.clients r → IsSound (record h { run = r })
run-IsSound h r s t = record { one_place = s.one_place; unborn = s.unborn; members_only = t }

pub announce-Safe :
    (c : ℕ) (r : RunState) (h : Hub) → IsSound h → h.run ≡ r → Safe (announce_step c r h)
unfolding announce_step
announce-Safe c waiting h s e = tt
announce-Safe c stopped h s e = tt
announce-Safe c (visiting m true todo) h s e = tt
announce-Safe c (visiting m false []) h s e = tt
announce-Safe c (visiting m false (d ∷ ds)) h s e =
    if_ind Safe (not (d == c)) (λ _. tt)
      λ is.
        if_ind Safe ((h.store c).drop_count == 0) (λ _. sound)
          λ _.
            if_ind Safe (h.store c).is_open
              (λ _.
                update-IsSound c (announce_to (h.store c))
                  (record h { run = visiting m true (d ∷ ds) }) sound
                  (announce_to-open (h.store c)))
              (λ shut. absurd (clash (ground arith) shut))
  where
    todo : All (λ x. h.clients x ≡ true) (d ∷ ds)
    todo = subst (Todo h.clients) e s.members_only

    sound : IsSound (record h { run = visiting m true (d ∷ ds) })
    sound = run-IsSound h (visiting m true (d ∷ ds)) s todo

    clash : d ≡ c → (h.store c).is_open ≡ false → ⊥
    clash same shut =
        let open_ : (h.store c).is_open ≡ true =
          member_open h s c (subst (λ x. h.clients x ≡ true) same todo.0) in
        let no : true ≡ false = sym open_ ∙ shut in cc

pub deliver-Safe :
    (c : ℕ) (r : RunState) (h : Hub) → IsSound h → h.run ≡ r → Safe (deliver_step c r h)
unfolding deliver_step
deliver-Safe c waiting h s e = tt
deliver-Safe c stopped h s e = tt
deliver-Safe c (visiting m false todo) h s e = tt
deliver-Safe c (visiting m true []) h s e = tt
deliver-Safe c (visiting m true (d ∷ ds)) h s e =
    if_ind Safe (not (d == c)) (λ _. tt)
      λ is.
        if_ind Safe (h.store c).is_open
          (λ _.
            update-IsSound c (deliver_to m (h.store c)) (record h { run = visiting m false ds })
              (run-IsSound h (visiting m false ds) s todo.1) (deliver_to-open m (h.store c)))
          (λ shut. absurd (clash (ground arith) shut))
  where
    todo : All (λ x. h.clients x ≡ true) (d ∷ ds)
    todo = subst (Todo h.clients) e s.members_only

    clash : d ≡ c → (h.store c).is_open ≡ false → ⊥
    clash same shut =
        let open_ : (h.store c).is_open ≡ true =
          member_open h s c (subst (λ x. h.clients x ≡ true) same todo.0) in
        let no : true ≡ false = sym open_ ∙ shut in cc
