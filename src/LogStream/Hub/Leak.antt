-- ===== src/LogStream/Hub/Leak.antt =====
-- `select` may take the request to unsubscribe before the one to subscribe.
use firefik.Prelude.{ℕ, ◌+◌, ◌≡◌, refl, Bool, true, false, List, [], ◌∷◌, Text, ltb-true, arith}
use firefik.LogStream.Hub.{
  Client, Hub, waiting, done, set_at, fresh_client, perform, Run, here, later, take_register,
  take_unregister, call_subscribe, call_unsubscribe,
}

-- A hub that waits with no request in its channels.
abbrev pub idle_hub : (ℕ → Bool) → (ℕ → Client) → ℕ → List ℕ → List Text → Hub
idle_hub clients store n late msgs = record {
  clients = clients;
  store = store;
  next = n;
  register = [];
  unregister = [];
  late_register = [];
  late_unregister = late;
  broadcast = msgs;
  run = waiting;
}

module _ (clients : ℕ → Bool) (store : ℕ → Client) (n : ℕ) (late : List ℕ) (msgs : List Text) where
  abbrev h0 : Hub
  h0 = idle_hub clients store n late msgs

  abbrev h1 : Hub
  h1 = record h0 { store = set_at n fresh_client store; next = n + 1; register = n ∷ [] }

  abbrev h2 : Hub
  h2 = record h1 { unregister = n ∷ [] }

  subscribed : perform call_subscribe h0 ≡ done h1
  unfolding perform
  subscribed = refl

  unsubscribed : perform (call_unsubscribe n) h1 ≡ done h2
  unfolding perform
  unsubscribed = rw (ltb-true {a = n} {b = n + 1} (omega arith)) refl

  ignored : clients n ≡ false → perform take_unregister h2 ≡ done h1
  unfolding perform
  ignored gone = rw gone refl

  abbrev h3 : Hub
  h3 = record h1 { register = []; clients = set_at n true clients }

  registered : perform take_register h1 ≡ done h3
  unfolding perform
  registered = refl

  -- From a waiting hub with empty channels of requests: when a client that is not in the map
  -- subscribes and unsubscribes at once and the loop takes the second request first, the client is
  -- in the map at the end, with no request left.
  pub subscribe_leak :
      clients n ≡ false
      → (h : Hub) × Run h0
          (take_register ∷ take_unregister ∷ call_unsubscribe n ∷ call_subscribe ∷ [])
          h
        × (h.clients n ≡ true)
        × (h.register ≡ [])
        × (h.unregister ≡ [])
  subscribe_leak gone = (
    h3,
    later take_register
        (later take_unregister
          (later (call_unsubscribe n) (later call_subscribe here subscribed) unsubscribed)
          (ignored gone))
        registered,
    found,
    refl,
    refl,
  )
    where
      found : set_at n true clients n ≡ true
      found = ground arith
