-- ===== src/Samples/Hub.antt =====
-- The hub of the log messages.
use firefik.Prelude.{◌≡◌, ◌≢◌, refl, false, true, List, [], ◌∷◌, codes, arith}
use firefik.LogStream.Hub.{
  Hub, waiting, visiting, done, panics, fresh_client, new_hub, members, perform, HubAction, Run,
  here, later, take_register, take_unregister, take_broadcast, announce, call_broadcast,
  call_subscribe, call_unsubscribe,
}
use firefik.LogStream.Hub.Safety.{perform-no_panic}
use firefik.LogStream.Hub.Amounts.{accounted}
use firefik.LogStream.Hub.Accounts.{offered, run-accounted}
use firefik.LogStream.Hub.Progress.{perform_all, rounds_from, run-returns}
use firefik.LogStream.Hub.Leak.{idle_hub, subscribe_leak}

-- One client, and one message that the loop is about to hand out.
abbrev one_message : List HubAction
one_message = take_broadcast ∷ call_broadcast (codes "m") ∷ take_register ∷ call_subscribe ∷ []

abbrev after : Hub → HubAction → Hub
after h a = elim (perform a h) [ done h' ↦ h' | _ ↦ h ]

abbrev subscribed : Hub
subscribed = after new_hub call_subscribe

abbrev registered : Hub
registered = after subscribed take_register

abbrev published : Hub
published = after registered (call_broadcast (codes "m"))

abbrev handing : Hub
handing = after published take_broadcast

handing-Run : Run new_hub one_message handing
unfolding perform new_hub
handing-Run =
    later take_broadcast
      (later (call_broadcast (codes "m"))
        (later take_register (later call_subscribe here refl) refl) refl)
      refl

perform-no_panic_example : perform (announce 0) handing ≢ panics
perform-no_panic_example = perform-no_panic (announce 0) handing-Run

run-accounted_example : accounted (handing.store 0) ≡ offered 0 one_message
run-accounted_example = run-accounted 0 handing-Run (omega arith)

handing_at : handing.run ≡ visiting (codes "m") false (0 ∷ [])
unfolding perform new_hub members
handing_at = refl

run-returns_example :
    (h' : Hub) × (perform_all (rounds_from false (0 ∷ [])) handing ≡ done h') × (h'.run ≡ waiting)
run-returns_example = run-returns (codes "m") false 0 [] handing-Run handing_at

subscribe_leak_example :
    (h : Hub) × Run
      (idle_hub (λ c. false) (λ c. fresh_client) 0 [] [])
      (take_register ∷ take_unregister ∷ call_unsubscribe 0 ∷ call_subscribe ∷ [])
      h
    × (h.clients 0 ≡ true)
    × (h.register ≡ [])
    × (h.unregister ≡ [])
subscribe_leak_example = subscribe_leak (λ c. false) (λ c. fresh_client) 0 [] [] refl
