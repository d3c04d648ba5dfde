-- ===== src/ControlPlane/Session/Lifetimes.antt =====
-- How long a session lives.
use firefik.Prelude.{
  ℕ, ◌-◌, Bool, true, false, ◌&&◌, ◌≡◌, refl, sym, subst, ap, ◌∙◌, Option, none, some, List, [],
  ◌∷◌, Text, text_eq, text_eq_iff, contains, lookup, keys, is_some, contains-keys, lookup-delete,
  lookup-delete_other, ltb, Bool-cases, inl, inr, if◌then◌else◌,
}
use firefik.ControlPlane.Session.{
  Session, SessionStore, Touched, session, refused, is_over, touch, touch_found, revoke, sweep,
  sweep_loop, sweep_found,
}

-- The session, unless it is over.
abbrev pub living : ℕ → ℕ → Option Session → Option Session
living idle now none = none
living idle now (some sess) = if is_over idle now sess then none else some sess

abbrev pub succeeds : {A : Type 0} → Touched A → Bool
succeeds (session a) = true
succeeds (refused e) = false

-- Whether a touch gave a session.
abbrev pub touched : SessionStore × Touched Session → Bool
touched r = succeeds r.1

found-succeeds :
    (s : SessionStore) (now : ℕ) (id : Text) (o : Option Session)
    → touched (touch_found now id s o) ≡ is_some (living s.idle now o)
unfolding touch_found
found-succeeds s now id none = refl
found-succeeds s now id (some sess) = elim (Bool-cases (ltb sess.expires_at now)) [
  | inl over ↦ rw over refl
  | inr in_time ↦ elim (Bool-cases (ltb 0 s.idle && ltb s.idle (now - sess.last_seen))) [
    | inl idle ↦ rw (in_time, idle) refl
    | inr busy ↦ rw (in_time, busy) refl
  ]
]

-- After one round, the session of its identifier is left if it lives, and the others are left.
round-lookup :
    (s : SessionStore) (now : ℕ) (id : Text) (o : Option Session)
    → lookup id s.sessions ≡ o
    → (lookup id (sweep_found now id s o).0.sessions ≡ living s.idle now o)
      × ((k : Text)
          → text_eq id k ≡ false
          → lookup k (sweep_found now id s o).0.sessions ≡ lookup k s.sessions)
      × ((sweep_found now id s o).0.idle ≡ s.idle)
unfolding revoke
round-lookup s now id none e = (e, λ k h. refl, refl)
round-lookup s now id (some sess) e = elim (Bool-cases (is_over s.idle now sess)) [
  | inl over ↦
      rw over (lookup-delete id s.sessions, λ k h. lookup-delete_other id k s.sessions h, refl)
  | inr lives ↦ rw lives (e, λ k h. refl, refl)
]

living_twice :
    (b : Bool) (idle now : ℕ) (o : Option Session)
    → (if b then living idle now (living idle now o) else living idle now o) ≡ living idle now o
living_twice false idle now o = refl
living_twice true idle now none = refl
living_twice true idle now (some sess) = elim (Bool-cases (is_over idle now sess)) [
  | inl over ↦ rw over refl
  | inr lives ↦ rw (lives, lives) refl
]

loop-lookup :
    (now : ℕ) (ids : List Text) (s : SessionStore) (k : Text)
    → (lookup k (sweep_loop now ids s).0.sessions
        ≡ (if contains ids k then living s.idle now (lookup k s.sessions) else lookup k s.sessions))
      × ((sweep_loop now ids s).0.idle ≡ s.idle)
unfolding sweep_loop contains
loop-lookup now [] s k = (refl, refl)
loop-lookup now (id ∷ ids) s k =
    let s1 : SessionStore = (sweep_found now id s (lookup id s.sessions)).0 in
    let (own, others, same_idle) = round-lookup s now id (lookup id s.sessions) refl in
    let (ih, ih_idle) = loop-lookup now ids s1 k in
    (
      elim (Bool-cases (text_eq id k)) [
        | inl e ↦
            let here : lookup k s1.sessions ≡ living s.idle now (lookup k s.sessions) =
              subst (λ j. lookup j s1.sessions ≡ living s.idle now (lookup j s.sessions))
                ((text_eq_iff id k).0 e) own in
            ih
            ∙ rw (same_idle, here, e)
                (living_twice (contains ids k) s.idle now (lookup k s.sessions))
        | inr other ↦ ih ∙ rw (same_idle, others k other, other) refl
      ],
      ih_idle ∙ same_idle,
    )

-- A sweep removes exactly the sessions that are over.
sweep-lookup :
    (now : ℕ) (s : SessionStore) (k : Text)
    → lookup k (sweep now s).0.sessions ≡ living s.idle now (lookup k s.sessions)
unfolding sweep
sweep-lookup now s k =
    (loop-lookup now (keys s.sessions) s k).0 ∙ rw contains-keys (by_key (lookup k s.sessions))
  where
    by_key :
        (o : Option Session) → (if is_some o then living s.idle now o else o) ≡ living s.idle now o
    by_key none = refl
    by_key (some sess) = refl

sweep-idle : (now : ℕ) (s : SessionStore) → (sweep now s).0.idle ≡ s.idle
unfolding sweep
sweep-idle now s = (loop-lookup now (keys s.sessions) s []).1

-- At any time, a touch gives a session exactly if there is one that is not over, a sweep leaves
-- exactly those, so that it changes no touch at its time, and a revoked session is gone.
pub touch_lem :
    (now : ℕ) (id : Text) (s : SessionStore)
    → (touched (touch now id s) ≡ is_some (living s.idle now (lookup id s.sessions)))
      × (lookup id (sweep now s).0.sessions ≡ living s.idle now (lookup id s.sessions))
      × (touched (touch now id (sweep now s).0) ≡ touched (touch now id s))
      × (touched (touch now id (revoke id s)) ≡ false)
unfolding touch revoke
touch_lem now id s = (
  found-succeeds s now id (lookup id s.sessions),
  sweep-lookup now s id,
  found-succeeds (sweep now s).0 now id (lookup id (sweep now s).0.sessions)
      ∙ (rw (sweep-idle now s, sweep-lookup now s id)
            (ap is_some (living_twice true s.idle now (lookup id s.sessions)))
          ∙ sym (found-succeeds s now id (lookup id s.sessions))),
  found-succeeds (revoke id s) now id (lookup id (revoke id s).sessions) ∙ rw lookup-delete refl,
)
