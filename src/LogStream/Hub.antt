-- ===== src/LogStream/Hub.antt =====
-- The hub of backend/internal/logstream/hub.go: its loop, and the clients that subscribe, read and
-- unsubscribe while it runs. A step is what happens between two points where another goroutine may act. A
-- client is the number of its `Subscribe`, and what it has read is kept with it. The counter and the
-- logger are left out.
pub mod Places
pub mod Steps
pub mod Safety
pub mod Amounts
pub mod Accounts
pub mod Progress
pub mod Leak
use firefik.Prelude.{
  ℕ, zero, suc, ◌+◌, ◌%◌, ◌^◌, Bool, true, false, not, ◌&&◌, ◌||◌, List, [], ◌∷◌, ◌++◌, Text,
  length, ltb, ◌==◌, ◌≡◌, if◌then◌else◌,
}

-- A message of the log, or a control message.
pub data Message : Type 0 where
  line : Text → Message
  dropped : ℕ → Message
  server_shutdown : Message

-- `send` is what the channel holds, and `drop_count` 64 bits wide.
pub record Client : Type 0 where
  pub send : List Message
  pub is_open : Bool
  pub drop_count : ℕ
  pub received : List Message

-- Where `Run` is: at its `select`, in the loop over the clients with a message, behind its return. In
-- the loop it holds the lock for reading, and the first of the clients left has been told of its drops or not.
pub data RunState : Type 0 where
  waiting : RunState
  visiting : Text → Bool → List ℕ → RunState
  stopped : RunState

-- `late_register` and `late_unregister` are the calls that found their channel full and want the lock.
pub record Hub : Type 0 where
  pub clients : ℕ → Bool
  pub store : ℕ → Client
  pub next : ℕ
  pub register : List ℕ
  pub unregister : List ℕ
  pub late_register : List ℕ
  pub late_unregister : List ℕ
  pub broadcast : List Text
  pub run : RunState

abbrev pub send_capacity : ℕ
send_capacity = 64

abbrev pub broadcast_capacity : ℕ
broadcast_capacity = 256

abbrev pub register_capacity : ℕ
register_capacity = 16

abbrev pub set_at {ℓ} : {A : Type ℓ} → ℕ → A → (ℕ → A) → ℕ → A
set_at c a f j = if j == c then a else f j

abbrev pub fresh_client : Client
fresh_client = record { send = []; is_open = true; drop_count = 0; received = [] }

unfoldable pub new_hub : Hub
new_hub = record {
  clients = λ c. false;
  store = λ c. fresh_client;
  next = 0;
  register = [];
  unregister = [];
  late_register = [];
  late_unregister = [];
  broadcast = [];
  run = waiting;
}

-- A send on a closed channel and the close of one panic; a step that cannot be taken is blocked.
pub data StepResult : Type 0 where
  done : Hub → StepResult
  blocked : StepResult
  panics : StepResult

-- The `select` with a send and an empty default.
unfoldable pub try_send : Message → Client → Client
try_send m cl =
    if ltb (length cl.send) send_capacity then record cl { send = cl.send ++ m ∷ [] } else cl

-- The count of the drops goes out as a message, or back to the counter.
unfoldable pub announce_to : Client → Client
announce_to cl =
    if ltb (length cl.send) send_capacity
    then record cl { send = cl.send ++ dropped cl.drop_count ∷ []; drop_count = 0 }
    else cl

unfoldable pub deliver_to : Text → Client → Client
deliver_to m cl =
    if ltb (length cl.send) send_capacity
    then record cl { send = cl.send ++ line m ∷ [] }
    else record cl { drop_count = (cl.drop_count + 1) % 2 ^ 64 }

abbrev pub update_client : ℕ → Client → Hub → Hub
update_client c cl h = record h { store = set_at c cl h.store }

unfoldable pub add_client : ℕ → Hub → Hub
add_client c h = record h { clients = set_at c true h.clients }

-- Under the lock: a client that is registered is deleted, and its channel closed.
abbrev pub closed : Client → Client
closed cl = record cl { is_open = false }

unfoldable pub remove_client : ℕ → Hub → StepResult
remove_client c h =
    if h.clients c
    then (if (h.store c).is_open
        then done (record h {
          clients = set_at c false h.clients;
          store = set_at c (closed (h.store c)) h.store;
        })
        else panics)
    else done h

-- The clients that a range over the map meets. Go leaves the order open; here the newest goes first.
unfoldable pub members : ℕ → (ℕ → Bool) → List ℕ
members zero clients = []
members (suc n) clients = let rest = members n clients in if clients n then n ∷ rest else rest

-- The loop of `sendShutdown`.
unfoldable pub shut_down : List ℕ → Hub → StepResult
unfolding try_send
shut_down [] h = done h
shut_down (c ∷ cs) h =
    let rest = shut_down cs (record h {
      clients = set_at c false h.clients;
      store = set_at c (closed (try_send server_shutdown (h.store c))) h.store;
    }) in
    if (h.store c).is_open then rest else panics

unfoldable pub has : ℕ → List ℕ → Bool
has c [] = false
has c (x ∷ xs) = x == c || has c xs

unfoldable pub remove_first : ℕ → List ℕ → List ℕ
remove_first c [] = []
remove_first c (x ∷ xs) = let rest = remove_first c xs in if x == c then xs else x ∷ rest

-- Whether the lock can be had for writing.
abbrev pub unlocked : RunState → Bool
unlocked (visiting _ _ _) = false
unlocked waiting = true
unlocked stopped = true

-- Steps of `Run`, then those of the callers.
pub data HubAction : Type 0 where
  take_register : HubAction
  take_unregister : HubAction
  take_broadcast : HubAction
  announce : ℕ → HubAction
  deliver : ℕ → HubAction
  end_broadcast : HubAction
  cancel : HubAction
  call_broadcast : Text → HubAction
  call_subscribe : HubAction
  insert_late : ℕ → HubAction
  call_unsubscribe : ℕ → HubAction
  delete_late : ℕ → HubAction
  receive : ℕ → HubAction

-- What `Run` does with the channels it waits for.
abbrev pub on_register : List ℕ → Hub → StepResult
on_register [] h = blocked
on_register (c ∷ cs) h = done (add_client c (record h { register = cs }))

abbrev pub on_unregister : List ℕ → Hub → StepResult
on_unregister [] h = blocked
on_unregister (c ∷ cs) h = remove_client c (record h { unregister = cs })

abbrev pub on_broadcast : List Text → Hub → StepResult
on_broadcast [] h = blocked
on_broadcast (m ∷ ms) h =
    done (record h { broadcast = ms; run = visiting m false (members h.next h.clients) })

-- One half of a round of the loop over the clients.
unfoldable pub announce_step : ℕ → RunState → Hub → StepResult
unfolding announce_to
announce_step c (visiting m false (d ∷ ds)) h =
    let h' = record h { run = visiting m true (d ∷ ds) } in
    if not (d == c)
    then blocked
    else if (h.store c).drop_count == 0
    then done h'
    else if (h.store c).is_open
    then done (update_client c (announce_to (h.store c)) h')
    else panics
announce_step c _ h = blocked

unfoldable pub deliver_step : ℕ → RunState → Hub → StepResult
unfolding deliver_to
deliver_step c (visiting m true (d ∷ ds)) h =
    if not (d == c)
    then blocked
    else if (h.store c).is_open
    then done (update_client c (deliver_to m (h.store c)) (record h { run = visiting m false ds }))
    else panics
deliver_step c _ h = blocked

abbrev pub end_step : RunState → Hub → StepResult
end_step (visiting m false []) h = done (record h { run = waiting })
end_step _ h = blocked

-- The reader takes the oldest message of its channel.
abbrev pub receive_from : ℕ → List Message → Hub → StepResult
receive_from c [] h = blocked
receive_from c (m ∷ ms) h = done (
    update_client c (record (h.store c) { send = ms; received = (h.store c).received ++ m ∷ [] }) h)

-- `Run` takes a case of its `select` only while it waits.
abbrev pub when_waiting : RunState → StepResult → StepResult
when_waiting waiting r = r
when_waiting (visiting _ _ _) r = blocked
when_waiting stopped r = blocked

unfoldable pub perform : HubAction → Hub → StepResult
unfolding add_client remove_client members shut_down announce_step deliver_step has remove_first
perform take_register h = when_waiting h.run (on_register h.register h)
perform take_unregister h = when_waiting h.run (on_unregister h.unregister h)
perform take_broadcast h = when_waiting h.run (on_broadcast h.broadcast h)
perform (announce c) h = announce_step c h.run h
perform (deliver c) h = deliver_step c h.run h
perform end_broadcast h = end_step h.run h
perform cancel h =
    when_waiting h.run (shut_down (members h.next h.clients) (record h { run = stopped }))
perform (call_broadcast m) h =
    if ltb (length h.broadcast) broadcast_capacity
    then done (record h { broadcast = h.broadcast ++ m ∷ [] })
    else done h
perform call_subscribe h =
    let h' = record h { store = set_at h.next fresh_client h.store; next = h.next + 1 } in
    if ltb (length h.register) register_capacity
    then done (record h' { register = h.register ++ h.next ∷ [] })
    else done (record h' { late_register = h.next ∷ h.late_register })
perform (insert_late c) h =
    if has c h.late_register && unlocked h.run
    then done (add_client c (record h { late_register = remove_first c h.late_register }))
    else blocked
perform (call_unsubscribe c) h =
    if not (ltb c h.next) || has c h.late_register
    then blocked
    else if ltb (length h.unregister) register_capacity
    then done (record h { unregister = h.unregister ++ c ∷ [] })
    else done (record h { late_unregister = c ∷ h.late_unregister })
perform (delete_late c) h =
    if has c h.late_unregister && unlocked h.run
    then remove_client c (record h { late_unregister = remove_first c h.late_unregister })
    else blocked
perform (receive c) h = receive_from c (h.store c).send h

-- Runs of the hub, with what happened in order.
pub data Run (start : Hub) : List HubAction → Hub → Type 0 where
  here : Run start [] start
  later :
      {actions : List HubAction} {h h' : Hub} (a : HubAction)
      → Run start actions h
      → perform a h ≡ done h'
      → Run start (a ∷ actions) h'
