-- ===== src/Samples/Sessions.antt =====
-- The sessions of one user.
use firefik.Prelude.{
  ◌≤◌, ◌+◌, ◌≡◌, refl, true, false, [], ◌∷◌, codes, text_eq, lookup, delete, insert,
}
use firefik.ControlPlane.Session.{
  Session, SessionStore, create, touch, revoke, sweep, create_call, touch_call,
}
use firefik.ControlPlane.Session.Lifetimes.{living, touched, touch_lem}
use firefik.ControlPlane.Session.Bounds.{session_bound}

abbrev signed_in : Session
signed_in = record {
  id = codes "a";
  username = codes "root";
  issued_at = 100;
  expires_at = 1100;
  last_seen = 100;
}

abbrev one_session : SessionStore
one_session = record { sessions = (codes "a", signed_in) ∷ []; ttl = 1000; idle = 200 }

touch_lem_example :
    (touched (touch 250 (codes "a") one_session) ≡ true)
    × (lookup (codes "a") (sweep 250 one_session).0.sessions
        ≡ living 200 250 (lookup (codes "a") one_session.sessions))
    × (touched (touch 250 (codes "a") (sweep 250 one_session).0)
        ≡ touched (touch 250 (codes "a") one_session))
    × (touched (touch 250 (codes "a") (revoke (codes "a") one_session)) ≡ false)
unfolding lookup text_eq
touch_lem_example = touch_lem 250 (codes "a") one_session

session_bound_example : 250 ≤ signed_in.issued_at + 1000
unfolding create touch lookup insert delete text_eq
session_bound_example =
    session_bound 1000
      (create_call 100 (codes "a") (codes "root") ∷ touch_call 200 (codes "a") ∷ []) 200 250
      (codes "a") (record signed_in { last_seen = 250 }) refl
