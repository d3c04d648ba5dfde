-- ===== src/Autogen/Propose/Ripe.antt =====
-- The ports that `Propose` proposes, by the flows that the observer has seen.
use firefik.Prelude.{
  and-true, ◌≤◌, ◌%◌, ◌^◌, leb, leb→le, leb-true, ℕ, ◌+◌, ◌-◌, ◌<◌, ◌≡◌, ◌↔◌, ◌⊎◌, refl, sym, ap,
  subst, ◌∙◌, Bool, true, false, Option, none, some, List, [], ◌∷◌, Text, length, lookup, is_some,
  lookup-Any, Any-lookup, Any, ltb, ltb-true, Bool-cases, inl, inr, arith, if◌then◌else◌,
}
use firefik.Strings.{is_empty}
use firefik.Autogen.{
  PortObservation, ContainerObservation, Observations, Flow, Observe, Proposal, entry_key,
  record_flows,
}
use firefik.Autogen.Counts.{ports_of, port_entry, times_to, observed, record_flows-observed}
use firefik.Autogen.WellFormed.{WellFormed, record_flows-WellFormed}
use firefik.Autogen.Propose.{
  at_least, is_ripe, ripe_ports, proposal_for, proposals_for, propose, text_less,
}
use firefik.Autogen.Propose.Sorting.{sorted-Any, Any-sorted}

Any-length {ℓ} : {A : Type ℓ} (P : A → Type 0) (xs : List A) → Any P xs → 0 < length xs
Any-length P [] h = absurd h
Any-length P (x ∷ xs) h = omega arith

-- The 64 bits of an `int`, put in the order of the `int`s.
abbrev pub biased : ℕ → ℕ
biased n = (n + 2 ^ 63) % 2 ^ 64

-- An entry with enough flows, the first of them long enough ago.
abbrev pub IsDue : ℕ → ℕ → ℕ → PortObservation → Type 0
IsDue min_observations min_age now po =
    (biased min_observations ≤ biased po.count) × (po.first_at + min_age ≤ now)

is_ripe-IsDue :
    (min_observations min_age now : ℕ) (po : PortObservation)
    → is_ripe min_observations min_age now po ≡ true
    → IsDue min_observations min_age now po
is_ripe-IsDue min_observations min_age now po h =
    let (enough, old) =
      and-true (at_least po.count min_observations) (leb (po.first_at + min_age) now) h in
    (
      leb→le (biased min_observations) (biased po.count) enough,
      leb→le (po.first_at + min_age) now old,
    )

IsDue-is_ripe :
    (min_observations min_age now : ℕ) (po : PortObservation)
    → IsDue min_observations min_age now po
    → is_ripe min_observations min_age now po ≡ true
IsDue-is_ripe min_observations min_age now po (enough, old) =
    rw (leb-true enough, leb-true old) refl

-- A list that has one more element under a test.
module _ {ℓ} {A : Type ℓ} (Q : A → Type 0) (x : A) (xs : List A) where
  cons_if-Any : (b : Bool) → Any Q (if b then x ∷ xs else xs) → Q x ⊎ Any Q xs
  cons_if-Any true h = h
  cons_if-Any false h = inr h

  Any-cons_if : (b : Bool) → Any Q xs → Any Q (if b then x ∷ xs else xs)
  Any-cons_if true h = inr h
  Any-cons_if false h = h

  Any-cons_true : (b : Bool) → b ≡ true → Q x → Any Q (if b then x ∷ xs else xs)
  Any-cons_true true h q = inl q
  Any-cons_true false h q = absurd (let e = h in cc)

module _ (min_observations min_age now : ℕ) (port : ℕ) where
  abbrev Here : Text × PortObservation → Type 0
  Here e = (is_ripe min_observations min_age now e.1 ≡ true) × (e.1.port ≡ port)

  ripe_ports-Any :
      (ports : List (Text × PortObservation))
      → Any (λ n. n ≡ port) (ripe_ports min_observations min_age now ports)
      → Any Here ports
  ripe_ports-Any [] h = h
  ripe_ports-Any ((key, po) ∷ ports) h =
      elim (Bool-cases (is_ripe min_observations min_age now po)) [
        | inl ripe ↦ elim (rw ripe at h) [
          | inl e ↦ inl (ripe, e)
          | inr es ↦ inr (ripe_ports-Any ports es)
        ]
        | inr unripe ↦ inr (ripe_ports-Any ports (rw unripe at h))
      ]

  Any-ripe_ports :
      (ports : List (Text × PortObservation))
      → Any Here ports
      → Any (λ n. n ≡ port) (ripe_ports min_observations min_age now ports)
  Any-ripe_ports [] h = h
  Any-ripe_ports ((key, po) ∷ ports) (inl (ripe, e)) = rw ripe (inl e)
  Any-ripe_ports ((key, po) ∷ ports) (inr hs) =
      Any-cons_if (λ n. n ≡ port) po.port (ripe_ports min_observations min_age now ports)
        (is_ripe min_observations min_age now po) (Any-ripe_ports ports hs)

  -- The observations of the container have the port, ripe.
  abbrev InWindow : Text → Text × ContainerObservation → Type 0
  InWindow cid e = (e.0 ≡ cid) × Any Here e.1.ports

  abbrev pub Proposes : Text → Proposal → Type 0
  Proposes cid p = (p.container_id ≡ cid) × Any (λ n. n ≡ port) p.ports

  module _ (show_window : ℕ → Text) (since : ℕ) (cid : Text) where
    proposals_for-Any :
        (win : Observations)
        → Any (Proposes cid) (proposals_for show_window min_observations min_age now since win)
        → Any (InWindow cid) win
    proposals_for-Any [] h = h
    proposals_for-Any ((id, obs) ∷ win) h =
        let p = proposal_for show_window min_observations min_age now since id obs in
        elim (cons_if-Any (Proposes cid) p
          (proposals_for show_window min_observations min_age now since win)
          (ltb 0 (length p.ports + length p.peers)) h) [
            | inl (same, ripe) ↦ inl (
              same,
              ripe_ports-Any obs.ports (
                  sorted-Any ltb (λ n. n ≡ port) (ripe_ports min_observations min_age now obs.ports)
                    ripe),
            )
            | inr hs ↦ inr (proposals_for-Any win hs)
          ]

    Any-proposals_for :
        (win : Observations)
        → Any (InWindow cid) win
        → Any (Proposes cid) (proposals_for show_window min_observations min_age now since win)
    Any-proposals_for [] h = h
    Any-proposals_for ((id, obs) ∷ win) (inl (same, here)) =
        let p = proposal_for show_window min_observations min_age now since id obs in
        let ports : Any (λ n. n ≡ port) p.ports =
          Any-sorted ltb (λ n. n ≡ port) (ripe_ports min_observations min_age now obs.ports)
            (Any-ripe_ports obs.ports here) in
        let some_ports = Any-length (λ n. n ≡ port) p.ports ports in
        Any-cons_true (Proposes cid) p
          (proposals_for show_window min_observations min_age now since win)
          (ltb 0 (length p.ports + length p.peers)) (ltb-true (omega (arith, some_ports)))
          (same, ports)
    Any-proposals_for ((id, obs) ∷ win) (inr hs) =
        let p = proposal_for show_window min_observations min_age now since id obs in
        Any-cons_if (Proposes cid) p
          (proposals_for show_window min_observations min_age now since win)
          (ltb 0 (length p.ports + length p.peers)) (Any-proposals_for win hs)

    -- In observations that are well formed, an entry of the port that is ripe.
    InWindow-entry :
        (win : Observations)
        → WellFormed win
        → Any (InWindow cid) win
        → (protocol : Text) × (po : PortObservation) × (port_entry cid (entry_key protocol port) win
            ≡ some po)
          × (is_ripe min_observations min_age now po ≡ true)
          × (is_empty cid ≡ false)
          × (0 < port)
    InWindow-entry win (unique, entries) h =
        let (id, obs, found, (same, here)) = Any-lookup (InWindow cid) win unique h in
        let (named, (unique_ports, ports)) = entries id obs found in
        let (key, po, there, (ripe, e)) = Any-lookup Here obs.ports unique_ports here in
        let (is_key, pos) = ports key po there in
        let of_port : lookup (entry_key po.protocol port) obs.ports ≡ some po =
          subst (λ n. lookup (entry_key po.protocol n) obs.ports ≡ some po) e
            (subst (λ k. lookup k obs.ports ≡ some po) is_key there) in
        let of_container : port_entry id (entry_key po.protocol port) win ≡ some po =
          rw found of_port in
        (
          po.protocol,
          po,
          subst (λ c. port_entry c (entry_key po.protocol port) win ≡ some po) same of_container,
          ripe,
          subst (λ c. is_empty c ≡ false) same named,
          subst (λ n. 0 < n) e pos,
        )

    entry-InWindow :
        (win : Observations) (key : Text) (po : PortObservation)
        → port_entry cid key win ≡ some po
        → is_ripe min_observations min_age now po ≡ true
        → po.port ≡ port
        → Any (InWindow cid) win
    unfolding lookup
    entry-InWindow win key po h ripe e = go (lookup cid win) refl h
      where
        go :
            (o : Option ContainerObservation)
            → lookup cid win ≡ o
            → lookup key (ports_of o) ≡ some po
            → Any (InWindow cid) win
        go none is there = absurd (let found = ap is_some there in cc)
        go (some obs) is there =
            lookup-Any (InWindow cid) cid obs win is
              (refl, lookup-Any Here key po obs.ports there (ripe, e))

abbrev port_or : ℕ → Option PortObservation → ℕ
port_or n none = n
port_or n (some po) = po.port

observed-port :
    (cid protocol : Text) (port : ℕ) (ts : List ℕ) (po : PortObservation)
    → observed cid protocol port ts ≡ some po
    → po.port ≡ port
observed-port cid protocol port [] po h = absurd (let found = ap is_some h in cc)
observed-port cid protocol port (t ∷ ts) po h =
    subst (λ (o : Option PortObservation). port_or port o ≡ port) h refl

-- For any flows that a new observer has recorded: a proposal for a container has a port exactly if
-- the container has an identifier, the port is positive and, for some protocol, the flows to the
-- port were enough, their number taken modulo 2 ^ 64 as an `int`, and the first of them is as long
-- ago as is asked for.
pub propose-Proposes :
    {S : Type 0} (observe : Observe S) (calls : List (ℕ × Flow)) (start : ℕ) (store : Option S)
    (show_window : ℕ → Text) (min_observations min_age now : ℕ) (cid : Text) (port : ℕ)
    → Any (Proposes min_observations min_age now port cid) (
        propose show_window min_observations min_age now
          (record_flows observe calls (record { win = []; start = start; store = store })))
      ↔ ((protocol : Text) × (po : PortObservation) × (observed cid protocol port
              (times_to cid protocol port calls)
            ≡ some po)
          × IsDue min_observations min_age now po
          × (is_empty cid ≡ false)
          × (0 < port))
unfolding propose lookup
propose-Proposes observe calls start store show_window min_observations min_age now cid port =
    let o = record_flows observe calls (record { win = []; start = start; store = store }) in
    let well =
      record_flows-WellFormed observe calls (record { win = []; start = start; store = store })
        (tt, λ id obs h. absurd (let found = ap is_some h in cc)) in
    let by_id = λ (p q : Proposal). text_less p.container_id q.container_id in
    let all = proposals_for show_window min_observations min_age now (now - o.start) o.win in
    (
      λ h.
          let (protocol, po, is, ripe, named, pos) =
            InWindow-entry min_observations min_age now port show_window (now - o.start) cid o.win
              well
              (proposals_for-Any min_observations min_age now port show_window (now - o.start) cid
                o.win (sorted-Any by_id (Proposes min_observations min_age now port cid) all h)) in
          (
            protocol,
            po,
            sym (record_flows-observed observe cid protocol port calls start store named pos) ∙ is,
            is_ripe-IsDue min_observations min_age now po ripe,
            named,
            pos,
          ),
      λ (protocol, po, is, ripe, named, pos).
          let there =
            record_flows-observed observe cid protocol port calls start store named pos ∙ is in
          Any-sorted by_id (Proposes min_observations min_age now port cid) all (
            Any-proposals_for min_observations min_age now port show_window (now - o.start) cid
              o.win
              (entry-InWindow min_observations min_age now port show_window (now - o.start) cid
                o.win (entry_key protocol port) po there
                (IsDue-is_ripe min_observations min_age now po ripe)
                (observed-port cid protocol port (times_to cid protocol port calls) po is))),
    )
