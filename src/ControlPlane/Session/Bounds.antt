-- ===== src/ControlPlane/Session/Bounds.antt =====
-- No session outlives its time to live, through any calls on the store.
use firefik.Prelude.{
  ℕ, ◌+◌, ◌-◌, ◌≤◌, ◌&&◌, ◌≡◌, refl, sym, subst, ap, ◌∙◌, Option, none, some, List, [], ◌∷◌, Text,
  text_eq, text_eq_iff, lookup, delete, insert, keys, lookup-delete, lookup-delete_other,
  lookup-insert, lookup-insert_other, ltb, Bool-cases, inl, inr, arith,
}
use firefik.ControlPlane.Session.{
  Session, SessionStore, SessionError, Touched, session, refused, created, create, touch,
  touch_found, revoke, sweep, sweep_loop, sweep_found, is_over, Call, create_call, touch_call,
  revoke_call, sweep_call, after_call, after_calls,
}

-- A session under `k` with an end by the time to live.
abbrev pub Timely : ℕ → Text → Session → Type 0
Timely ttl k sess = (sess.id ≡ k) × (sess.expires_at ≡ sess.issued_at + ttl)

-- All sessions of the store are such, and its time to live is `ttl`.
abbrev pub AllTimely : ℕ → SessionStore → Type 0
AllTimely ttl s =
    (s.ttl ≡ ttl)
    × ((k : Text) (sess : Session) → lookup k s.sessions ≡ some sess → Timely ttl k sess)

module _ (ttl : ℕ) where
  delete-Timely :
      (m : List (Text × Session)) (id : Text)
      → ((k : Text) (sess : Session) → lookup k m ≡ some sess → Timely ttl k sess)
      → (k : Text) (sess : Session) → lookup k (delete id m) ≡ some sess
      → Timely ttl k sess
  delete-Timely m id h k sess e = elim (Bool-cases (text_eq id k)) [
    | inl same ↦ absurd (gone ((text_eq_iff id k).0 same) e)
    | inr other ↦ h k sess (sym (lookup-delete_other id k m other) ∙ e)
  ]
    where
      gone : id ≡ k → lookup k (delete id m) ≡ some sess → ⊥
      gone same found =
          let missing = subst (λ j. lookup j (delete id m) ≡ none) same (lookup-delete id m) in cc

  insert-Timely :
      (m : List (Text × Session)) (id : Text) (new : Session)
      → Timely ttl id new
      → ((k : Text) (sess : Session) → lookup k m ≡ some sess → Timely ttl k sess)
      → (k : Text) (sess : Session) → lookup k (insert id new m) ≡ some sess
      → Timely ttl k sess
  insert-Timely m id new t h k sess e = elim (Bool-cases (text_eq id k)) [
    | inl same ↦ mine ((text_eq_iff id k).0 same)
    | inr other ↦ h k sess (sym (lookup-insert_other id k new m other) ∙ e)
  ]
    where
      mine : id ≡ k → Timely ttl k sess
      mine same =
          let found : some new ≡ some sess =
            sym (lookup-insert id new m)
            ∙ subst (λ j. lookup j (insert id new m) ≡ some sess) (sym same) e in
          let is : new ≡ sess = cc in
          subst (λ (x : Session). Timely ttl k x) is (subst (λ j. Timely ttl j new) same t)

  found-AllTimely :
      (now : ℕ) (id : Text) (s : SessionStore) (o : Option Session)
      → lookup id s.sessions ≡ o
      → AllTimely ttl s
      → AllTimely ttl (touch_found now id s o).0
  unfolding touch_found
  found-AllTimely now id s none e h = h
  found-AllTimely now id s (some sess) e (t, h) = elim (Bool-cases (ltb sess.expires_at now)) [
    | inl over ↦ rw over (t, delete-Timely s.sessions id h)
    | inr in_time ↦ elim (Bool-cases (ltb 0 s.idle && ltb s.idle (now - sess.last_seen))) [
      | inl idle ↦ rw (in_time, idle) (t, delete-Timely s.sessions id h)
      | inr busy ↦
          rw (in_time, busy)
            (t, insert-Timely s.sessions id (record sess { last_seen = now }) (h id sess e) h)
    ]
  ]

  round-AllTimely :
      (now : ℕ) (id : Text) (s : SessionStore) (o : Option Session)
      → AllTimely ttl s
      → AllTimely ttl (sweep_found now id s o).0
  unfolding revoke
  round-AllTimely now id s none h = h
  round-AllTimely now id s (some sess) (t, h) = elim (Bool-cases (is_over s.idle now sess)) [
    | inl over ↦ rw over (t, delete-Timely s.sessions id h)
    | inr lives ↦ rw lives (t, h)
  ]

  loop-AllTimely :
      (now : ℕ) (ids : List Text) (s : SessionStore)
      → AllTimely ttl s
      → AllTimely ttl (sweep_loop now ids s).0
  unfolding sweep_loop
  loop-AllTimely now [] s h = h
  loop-AllTimely now (id ∷ ids) s h =
      loop-AllTimely now ids _ (round-AllTimely now id s (lookup id s.sessions) h)

  call-AllTimely : (c : Call) (s : SessionStore) → AllTimely ttl s → AllTimely ttl (after_call c s)
  unfolding create touch revoke sweep
  call-AllTimely (create_call now id username) s (t, h) =
      (t, insert-Timely s.sessions id (created s now id username) (refl, ap (λ n. now + n) t) h)
  call-AllTimely (touch_call now id) s h = found-AllTimely now id s (lookup id s.sessions) refl h
  call-AllTimely (revoke_call id) s (t, h) = (t, delete-Timely s.sessions id h)
  call-AllTimely (sweep_call now) s h = loop-AllTimely now (keys s.sessions) s h

  calls-AllTimely :
      (cs : List Call) (s : SessionStore) → AllTimely ttl s → AllTimely ttl (after_calls cs s)
  calls-AllTimely [] s h = h
  calls-AllTimely (c ∷ cs) s h = calls-AllTimely cs _ (call-AllTimely c s h)

  -- What a touch gives has the fields of the session that it found, which is not behind its end.
  found-in_time :
      (now : ℕ) (id : Text) (s : SessionStore) (o : Option Session) (sess : Session)
      → lookup id s.sessions ≡ o
      → AllTimely ttl s
      → (touch_found now id s o).1 ≡ session sess
      → now ≤ sess.issued_at + ttl
  unfolding touch_found
  found-in_time now id s none sess e h given = cc
  found-in_time now id s (some old) sess e (_, h) given =
      elim (Bool-cases (ltb old.expires_at now)) [
        | inl over ↦ absurd (refuses (rw over at given))
        | inr in_time ↦ elim (Bool-cases (ltb 0 s.idle && ltb s.idle (now - old.last_seen))) [
          | inl idle ↦ absurd (refuses (rw (in_time, idle) at given))
          | inr busy ↦
              let same : record old { last_seen = now } ≡ sess =
                session-injective (rw (in_time, busy) at given) in
              let (_, ends) = h id old e in
              subst (λ (x : Session). now ≤ x.issued_at + ttl) same (ground (arith, in_time, ends))
        ]
      ]
    where
      refuses : {err : SessionError} → refused err ≡ session sess → ⊥
      refuses x = cc

      session-injective :
          {a b : Session} → ◌≡◌ {A = Touched Session} (session a) (session b) → a ≡ b
      session-injective x = cc

  -- Through any calls on a store with a time to live and no sessions, a touch gives no session that
  -- was issued longer ago than the time to live.
  pub session_bound :
      (calls : List Call) (idle now : ℕ) (id : Text) (sess : Session)
      → (touch now id (after_calls calls (record { sessions = []; ttl = ttl; idle = idle }))).1
        ≡ session sess
      → now ≤ sess.issued_at + ttl
  unfolding touch lookup
  session_bound calls idle now id sess given =
      found-in_time now id (after_calls calls (record { sessions = []; ttl = ttl; idle = idle })) _
        sess refl
        (calls-AllTimely calls (record { sessions = []; ttl = ttl; idle = idle })
          (refl, λ k x e. absurd (nothing e)))
        given
    where
      nothing : {x : Session} → ◌≡◌ {A = Option Session} none (some x) → ⊥
      nothing e = cc
