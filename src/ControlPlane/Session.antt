-- ===== src/ControlPlane/Session.antt =====
-- backend/internal/controlplane/session.go. Times and durations are numbers of nanoseconds, and `now` is
-- the time of the call. The store's lock makes each operation one step.
pub mod Lifetimes
pub mod Bounds
use firefik.Prelude.{
  ℕ, ◌+◌, ◌-◌, Bool, true, false, not, ◌&&◌, ◌||◌, Option, none, some, List, [], ◌∷◌, Text, lookup,
  delete, insert, keys, ltb, if◌then◌else◌,
}

pub data SessionError : Type 0 where
  session_unknown : SessionError
  session_expired : SessionError

pub data Touched (A : Type 0) : Type 0 where
  session : A → Touched A
  refused : SessionError → Touched A

pub record Session : Type 0 where
  pub id : Text
  pub username : Text
  pub issued_at : ℕ
  pub expires_at : ℕ
  pub last_seen : ℕ

pub record SessionStore : Type 0 where
  pub sessions : List (Text × Session)
  pub ttl : ℕ
  pub idle : ℕ

-- 24 hours and 4 hours.
abbrev pub new_session_store : SessionStore
new_session_store = record { sessions = []; ttl = 86400000000000; idle = 14400000000000 }

unfoldable pub with_ttl : ℕ → ℕ → SessionStore → SessionStore
with_ttl ttl idle s = record s {
  ttl = if ltb 0 ttl then ttl else s.ttl;
  idle = if ltb 0 idle then idle else s.idle;
}

-- The session that `Create` makes under the random identifier `id`.
abbrev pub created : SessionStore → ℕ → Text → Text → Session
created s now id username = record {
  id = id;
  username = username;
  issued_at = now;
  expires_at = now + s.ttl;
  last_seen = now;
}

unfoldable pub create : ℕ → Text → Text → SessionStore → SessionStore
create now id username s = record s { sessions = insert id (created s now id username) s.sessions }

-- The two tests of `Touch` and `Sweep`: behind its end, or idle for too long.
abbrev pub is_over : ℕ → ℕ → Session → Bool
is_over idle now sess = ltb sess.expires_at now || (ltb 0 idle && ltb idle (now - sess.last_seen))

-- `Touch`, by what is found under the identifier.
unfoldable pub touch_found :
    ℕ → Text → SessionStore → Option Session → SessionStore × Touched Session
touch_found now id s none = (s, refused session_unknown)
touch_found now id s (some sess) =
    let seen = record sess { last_seen = now } in
    if ltb sess.expires_at now
    then (record s { sessions = delete id s.sessions }, refused session_expired)
    else if ltb 0 s.idle && ltb s.idle (now - sess.last_seen)
    then (record s { sessions = delete id s.sessions }, refused session_expired)
    else (record s { sessions = insert id seen s.sessions }, session seen)

unfoldable pub touch : ℕ → Text → SessionStore → SessionStore × Touched Session
unfolding touch_found
touch now id s = touch_found now id s (lookup id s.sessions)

unfoldable pub revoke : Text → SessionStore → SessionStore
revoke id s = record s { sessions = delete id s.sessions }

-- One round of `Sweep`, by the session of the identifier.
abbrev pub sweep_found : ℕ → Text → SessionStore → Option Session → SessionStore × ℕ
sweep_found now id s none = (s, 0)
sweep_found now id s (some sess) = if is_over s.idle now sess then (revoke id s, 1) else (s, 0)

unfoldable pub sweep_loop : ℕ → List Text → SessionStore → SessionStore × ℕ
unfolding revoke
sweep_loop now [] s = (s, 0)
sweep_loop now (id ∷ ids) s =
    let (s', n) = sweep_found now id s (lookup id s.sessions) in
    let (s'', removed) = sweep_loop now ids s' in (s'', n + removed)

-- The store without the sessions that are over, and how many they were.
unfoldable pub sweep : ℕ → SessionStore → SessionStore × ℕ
unfolding sweep_loop
sweep now s = sweep_loop now (keys s.sessions) s

-- A call on the store, at its time.
pub data Call : Type 0 where
  create_call : ℕ → Text → Text → Call
  touch_call : ℕ → Text → Call
  revoke_call : Text → Call
  sweep_call : ℕ → Call

abbrev pub after_call : Call → SessionStore → SessionStore
after_call (create_call now id username) s = create now id username s
after_call (touch_call now id) s = (touch now id s).0
after_call (revoke_call id) s = revoke id s
after_call (sweep_call now) s = (sweep now s).0

abbrev pub after_calls : List Call → SessionStore → SessionStore
after_calls [] s = s
after_calls (c ∷ cs) s = after_calls cs (after_call c s)
