-- ===== src/LogStream/Hub/Amounts.antt =====
-- What each change of the hub does to the messages that a client is sent or told of.
use firefik.Prelude.{
  ℕ, ◌+◌, ◌^◌, ◌≤◌, ◌<◌, ◌≡◌, refl, sym, subst, true, false, not, List, [], ◌∷◌, ◌++◌, Text, length,
  ltb, ◌==◌, ==_eq, Bool-cases, if_ind, inl, inr, arith,
}
use firefik.LogStream.Hub.{
  Message, line, dropped, server_shutdown, Client, Hub, RunState, waiting, visiting, stopped,
  StepResult, done, blocked, panics, set_at, closed, try_send, announce_to, deliver_to,
  remove_client, shut_down, announce_step, deliver_step, send_capacity,
}
use firefik.LogStream.Hub.Places.{bit}

-- How many messages of the log a message stands for.
abbrev pub weight : Message → ℕ
weight (line m) = 1
weight (dropped n) = n
weight server_shutdown = 0

abbrev pub total : List Message → ℕ
total [] = 0
total (m ∷ ms) = weight m + total ms

-- The messages of the log that a client was sent, was told that it missed, or is yet to be told.
abbrev pub accounted : Client → ℕ
accounted cl = total cl.received + (total cl.send + cl.drop_count)

total-append : (ms : List Message) (m : Message) → total (ms ++ m ∷ []) ≡ total ms + weight m
total-append [] m = omega arith
total-append (x ∷ ms) m = omega (arith, total-append ms m)

try_send-accounted : (cl : Client) → accounted (try_send server_shutdown cl) ≡ accounted cl
unfolding try_send
try_send-accounted cl =
    if_ind (λ (x : Client). accounted x ≡ accounted cl) (ltb (length cl.send) send_capacity)
      (λ _. omega (arith, total-append cl.send server_shutdown)) (λ _. refl)

announce_to-accounted : (cl : Client) → accounted (announce_to cl) ≡ accounted cl
unfolding announce_to
announce_to-accounted cl =
    if_ind (λ (x : Client). accounted x ≡ accounted cl) (ltb (length cl.send) send_capacity)
      (λ _. omega (arith, total-append cl.send (dropped cl.drop_count))) (λ _. refl)

deliver_to-accounted :
    (m : Text) (cl : Client)
    → accounted cl + 1 < 2 ^ 64
    → accounted (deliver_to m cl) ≡ accounted cl + 1
unfolding deliver_to
deliver_to-accounted m cl below =
    if_ind (λ (x : Client). accounted x ≡ accounted cl + 1) (ltb (length cl.send) send_capacity)
      (λ _. omega (arith, total-append cl.send (line m))) (λ _. omega arith)

-- What a step adds to each client's account; clients that are not born yet get nothing.
abbrev pub Adds : (ℕ → ℕ) → Hub → StepResult → Type 0
Adds extra h (done h') =
    (h.next ≤ h'.next) × ((c : ℕ) → accounted (h'.store c) ≡ accounted (h.store c) + extra c)
Adds extra h blocked = Unit
Adds extra h panics = Unit

abbrev pub nothing : ℕ → ℕ
nothing c = 0

pub same : (h h' : Hub) → h'.store ≡ h.store → h'.next ≡ h.next → Adds nothing h (done h')
same h h' es en = (
  omega arith,
  λ c. subst (λ f. accounted (f c) ≡ accounted (h.store c) + 0) (sym es) (omega arith),
)

bit_self : (c : ℕ) → bit (c == c) ≡ 1
bit_self c = ground arith

bit_apart : (c j : ℕ) → (j == c) ≡ false → bit (c == j) ≡ 0
bit_apart c j h = ground (arith, h)

pub update_same :
    (c : ℕ) (cl : Client) (store : ℕ → Client)
    → accounted cl ≡ accounted (store c)
    → (j : ℕ) → accounted (set_at c cl store j) ≡ accounted (store j) + 0
update_same c cl store e j = elim (Bool-cases (j == c)) [
  | inl is ↦
      rw is
        (subst (λ i. accounted cl ≡ accounted (store i) + 0) (sym (==_eq is)) (omega (arith, e)))
  | inr other ↦ rw other (omega arith)
]

update_one :
    (c : ℕ) (cl : Client) (store : ℕ → Client)
    → accounted cl ≡ accounted (store c) + 1
    → (j : ℕ) → accounted (set_at c cl store j) ≡ accounted (store j) + bit (c == j)
update_one c cl store e j = elim (Bool-cases (j == c)) [
  | inl is ↦ rw is (
      subst (λ i. accounted cl ≡ accounted (store i) + bit (c == i)) (sym (==_eq is))
        (omega (arith, e, bit_self c)))
  | inr other ↦ rw other (omega (arith, bit_apart c j other))
]

pub unchanged : (h : Hub) (c : ℕ) → accounted (h.store c) ≡ accounted (h.store c) + 0
unchanged h c = omega arith

pub remove-Adds : (c : ℕ) (h : Hub) → Adds nothing h (remove_client c h)
unfolding remove_client
remove-Adds c h =
    if_ind (Adds nothing h) (h.clients c)
      (λ _.
        if_ind (Adds nothing h) (h.store c).is_open
          (λ _. (omega arith, update_same c (closed (h.store c)) h.store refl)) (λ _. tt))
      (λ _. (omega arith, unchanged h))

Adds-trans :
    (h h' : Hub) (r : StepResult) → Adds nothing h (done h') → Adds nothing h' r → Adds nothing h r
Adds-trans h h' (done h'') (le, e) (le', e') = (omega arith, λ c. omega (arith, e c, e' c))
Adds-trans h h' blocked a b = tt
Adds-trans h h' panics a b = tt

pub shut_down-Adds : (cs : List ℕ) (h : Hub) → Adds nothing h (shut_down cs h)
unfolding shut_down
shut_down-Adds [] h = (omega arith, unchanged h)
shut_down-Adds (c ∷ cs) h =
    if_ind (Adds nothing h) (h.store c).is_open
      (λ _.
        Adds-trans h
          (record h {
            clients = set_at c false h.clients;
            store = set_at c (closed (try_send server_shutdown (h.store c))) h.store;
          })
          (shut_down cs (record h {
            clients = set_at c false h.clients;
            store = set_at c (closed (try_send server_shutdown (h.store c))) h.store;
          }))
          (
            omega arith,
            update_same c (closed (try_send server_shutdown (h.store c))) h.store
                (try_send-accounted (h.store c)),
          )
          (shut_down-Adds cs (record h {
            clients = set_at c false h.clients;
            store = set_at c (closed (try_send server_shutdown (h.store c))) h.store;
          })))
      (λ _. tt)

pub announce-Adds : (c : ℕ) (r : RunState) (h : Hub) → Adds nothing h (announce_step c r h)
unfolding announce_step
announce-Adds c waiting h = tt
announce-Adds c stopped h = tt
announce-Adds c (visiting m true todo) h = tt
announce-Adds c (visiting m false []) h = tt
announce-Adds c (visiting m false (d ∷ ds)) h =
    if_ind (Adds nothing h) (not (d == c)) (λ _. tt)
      λ is.
        if_ind (Adds nothing h) ((h.store c).drop_count == 0) (λ _. (omega arith, unchanged h))
          λ _.
            if_ind (Adds nothing h) (h.store c).is_open
              (λ _. (
                omega arith,
                update_same c (announce_to (h.store c)) h.store (announce_to-accounted (h.store c)),
              ))
              (λ _. tt)

pub deliver-Adds :
    (c : ℕ) (r : RunState) (h : Hub)
    → accounted (h.store c) + 1 < 2 ^ 64
    → Adds (λ j. bit (c == j)) h (deliver_step c r h)
unfolding deliver_step
deliver-Adds c waiting h below = tt
deliver-Adds c stopped h below = tt
deliver-Adds c (visiting m false todo) h below = tt
deliver-Adds c (visiting m true []) h below = tt
deliver-Adds c (visiting m true (d ∷ ds)) h below =
    if_ind (Adds (λ j. bit (c == j)) h) (not (d == c)) (λ _. tt)
      λ is.
        if_ind (Adds (λ j. bit (c == j)) h) (h.store c).is_open
          (λ _. (
            omega arith,
            update_one c (deliver_to m (h.store c)) h.store
                (deliver_to-accounted m (h.store c) below),
          ))
          (λ _. tt)
