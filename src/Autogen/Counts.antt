-- ===== src/Autogen/Counts.antt =====
-- What the observer knows of a port, by the flows that it has seen.
use firefik.Prelude.{
  and-true, ℕ, suc, ◌+◌, ◌%◌, ◌^◌, ◌<◌, ◌≡◌, refl, sym, ap, ap₂, ◌∙◌, Bool, true, false, ◌&&◌,
  Option, none, some, List, [], ◌∷◌, Text, text_eq, text_eq_iff, text_eq_refl, text_eq_ne, lookup,
  insert, lookup-insert, lookup-insert_other, length, ltb, ltb-true, ◌==◌, ==_eq, Bool-cases,
  if_ind, inl, inr, arith, if◌then◌else◌,
}
use firefik.Strings.{is_empty}
use firefik.Autogen.{
  PortObservation, ContainerObservation, Observations, Flow, Observe, Observer, entry_key,
  seen_port, or_none_yet, with_port, with_peer, observe_flow, timed, record_flow, record_flows,
}
use firefik.Autogen.Keys.{text_eq-entry_key}

-- The entry of a key among the ports of a container.
abbrev pub ports_of : Option ContainerObservation → List (Text × PortObservation)
ports_of none = []
ports_of (some obs) = obs.ports

abbrev pub port_entry : Text → Text → Observations → Option PortObservation
port_entry cid key win = lookup key (ports_of (lookup cid win))

-- A flow of the container to the port.
abbrev pub is_to : Text → Text → ℕ → Flow → Bool
is_to cid protocol port f =
    text_eq f.container_id cid && (text_eq f.protocol protocol && f.port == port)

abbrev pub after : Flow → Observations → ContainerObservation
after f win =
    with_peer f
      (with_port f (record (or_none_yet (lookup f.container_id win)) { updated = f.seen_at }))

pub observe_flow-insert :
    (f : Flow) (win : Observations) → observe_flow f win ≡ insert f.container_id (after f win) win
unfolding observe_flow
observe_flow-insert f win = refl

pub with_peer-ports : (f : Flow) (obs : ContainerObservation) → (with_peer f obs).ports ≡ obs.ports
unfolding with_peer
with_peer-ports f obs = elim (Bool-cases (is_empty f.peer_ip)) [
  | inl without ↦ rw without refl
  | inr given ↦ rw given refl
]

module _ (cid protocol : Text) (port : ℕ) where
  -- The times of the flows to the port.
  abbrev pub times_to : List (ℕ × Flow) → List ℕ
  times_to [] = []
  times_to ((now, f) ∷ calls) =
      if is_to cid protocol port f then (timed now f).seen_at ∷ times_to calls else times_to calls

  abbrev last_of : ℕ → List ℕ → ℕ
  last_of t [] = t
  last_of t (u ∷ us) = last_of u us

  abbrev entry_with : ℕ → ℕ → ℕ → Option PortObservation
  entry_with n first last = some (record {
    protocol = protocol;
    port = port;
    count = n % 2 ^ 64;
    first_at = first;
    last_at = last;
  })

  -- What those times say of the port: how many they are, the first one and the last one.
  abbrev pub observed : List ℕ → Option PortObservation
  observed [] = none
  observed (t ∷ ts) = entry_with (length (t ∷ ts)) t (last_of t ts)

  -- The entry, after flows at those times.
  abbrev bump : Option PortObservation → ℕ → Option PortObservation
  bump none t = entry_with 1 t t
  bump (some p) t = some (record p { count = (p.count + 1) % 2 ^ 64; last_at = t })

  abbrev bumped : Option PortObservation → List ℕ → Option PortObservation
  bumped o [] = o
  bumped o (t ∷ ts) = bumped (bump o t) ts

  bumped-if :
      (b : Bool) (o : Option PortObservation) (t : ℕ) (ts : List ℕ)
      → bumped (if b then bump o t else o) ts ≡ bumped o (if b then t ∷ ts else ts)
  bumped-if true o t ts = refl
  bumped-if false o t ts = refl

  bumped-some :
      (n first last : ℕ) (ts : List ℕ)
      → bumped (entry_with n first last) ts ≡ entry_with (n + length ts) first (last_of last ts)
  bumped-some n first last [] =
      let e : n ≡ n + 0 = omega arith in ap (λ k. entry_with k first last) e
  bumped-some n first last (t ∷ ts) =
      let e : (n % 2 ^ 64 + 1) % 2 ^ 64 ≡ (n + 1) % 2 ^ 64 = omega arith in
      let k : n + 1 + length ts ≡ n + suc (length ts) = omega arith in
      rw e (bumped-some (n + 1) first t ts ∙ ap (λ j. entry_with j first (last_of t ts)) k)

  bumped-none : (ts : List ℕ) → bumped none ts ≡ observed ts
  bumped-none [] = refl
  bumped-none (t ∷ ts) =
      let e : 1 + length ts ≡ suc (length ts) = omega arith in
      bumped-some 1 t t ts ∙ ap (λ k. entry_with k t (last_of t ts)) e

  bump-seen_port :
      (f : Flow) (o : Option PortObservation)
      → f.protocol ≡ protocol
      → f.port ≡ port
      → some (seen_port f o) ≡ bump o f.seen_at
  bump-seen_port f none hs hp = rw (hs, hp) refl
  bump-seen_port f (some p) hs hp = refl

  step_port :
      (f : Flow) (obs : ContainerObservation)
      → 0 < port
      → lookup (entry_key protocol port) (with_port f obs).ports ≡ (
          if text_eq f.protocol protocol && f.port == port
          then bump (lookup (entry_key protocol port) obs.ports) f.seen_at
          else lookup (entry_key protocol port) obs.ports)
  unfolding with_port
  step_port f obs pos = elim (Bool-cases (text_eq f.protocol protocol && f.port == port)) [
    | inl both ↦
        let (same, is) = and-true (text_eq f.protocol protocol) (f.port == port) both in
        let protocols : f.protocol ≡ protocol = (text_eq_iff f.protocol protocol).0 same in
        let ports : f.port ≡ port = ==_eq is in
        let positive : ltb 0 f.port ≡ true = ltb-true (rw ports pos) in
        let keys : entry_key f.protocol f.port ≡ entry_key protocol port =
          ap₂ entry_key protocols ports in
        rw (both, positive, keys)
          (lookup-insert (entry_key protocol port)
              (seen_port f (lookup (entry_key protocol port) obs.ports)) obs.ports
            ∙ bump-seen_port f (lookup (entry_key protocol port) obs.ports) protocols ports)
    | inr differ ↦ rw differ (
        if_ind
          (λ (o : ContainerObservation).
            lookup (entry_key protocol port) o.ports ≡ lookup (entry_key protocol port) obs.ports)
          (ltb 0 f.port)
          (λ _.
            lookup-insert_other (entry_key f.protocol f.port) (entry_key protocol port)
              (seen_port f (lookup (entry_key f.protocol f.port) obs.ports)) obs.ports
              (text_eq-entry_key f.protocol protocol f.port port ∙ differ))
          (λ _. refl))
  ]

  or_none_yet-ports : (o : Option ContainerObservation) → (or_none_yet o).ports ≡ ports_of o
  or_none_yet-ports none = refl
  or_none_yet-ports (some obs) = refl

  -- The entry of the port, after one flow of the container.
  step_own :
      (f : Flow) (win : Observations)
      → 0 < port
      → lookup (entry_key protocol port) (after f win).ports ≡ (
          if text_eq f.protocol protocol && f.port == port
          then bump (port_entry f.container_id (entry_key protocol port) win) f.seen_at
          else port_entry f.container_id (entry_key protocol port) win)
  step_own f win pos =
      let obs : ContainerObservation = record (or_none_yet (lookup f.container_id win)) {
        updated = f.seen_at;
      } in
      ap (lookup (entry_key protocol port)) (with_peer-ports f (with_port f obs))
      ∙ (step_port f obs pos
          ∙ ap
              (λ ports.
                if text_eq f.protocol protocol && f.port == port
                then bump (lookup (entry_key protocol port) ports) f.seen_at
                else lookup (entry_key protocol port) ports)
              (or_none_yet-ports (lookup f.container_id win)))

  -- The entry of the port, after one flow.
  step_entry :
      (f : Flow) (win : Observations)
      → 0 < port
      → port_entry cid (entry_key protocol port) (observe_flow f win) ≡ (
          if is_to cid protocol port f
          then bump (port_entry cid (entry_key protocol port) win) f.seen_at
          else port_entry cid (entry_key protocol port) win)
  step_entry f win pos = elim (Bool-cases (text_eq f.container_id cid)) [
    | inl same ↦
        rw
          (
            observe_flow-insert f win,
            sym ((text_eq_iff f.container_id cid).0 same),
            text_eq_refl f.container_id,
            lookup-insert f.container_id (after f win) win,
          )
          (step_own f win pos)
    | inr other ↦
        rw
          (
            observe_flow-insert f win,
            other,
            lookup-insert_other f.container_id cid (after f win) win other,
          )
          refl
  ]

module _ {S : Type 0} (observe : Observe S) (cid protocol : Text) (port : ℕ) where
  record_flow-entry :
      (now : ℕ) (f : Flow) (o : Observer S)
      → is_empty cid ≡ false
      → 0 < port
      → port_entry cid (entry_key protocol port) (record_flow observe now f o).win ≡ (
          if is_to cid protocol port f
          then bump cid protocol port
              (port_entry cid (entry_key protocol port) o.win)
              (timed now f).seen_at
          else port_entry cid (entry_key protocol port) o.win)
  unfolding record_flow
  record_flow-entry now f o given pos = elim (Bool-cases (is_empty f.container_id)) [
    | inl nameless ↦
        let other : text_eq f.container_id cid ≡ false =
          text_eq_ne f.container_id cid (λ e. let there = ap is_empty e in cc) in
        rw (nameless, other) refl
    | inr named ↦ rw named (step_entry cid protocol port (timed now f) o.win pos)
  ]

  record_flows-bumped :
      (calls : List (ℕ × Flow)) (o : Observer S)
      → is_empty cid ≡ false
      → 0 < port
      → port_entry cid (entry_key protocol port) (record_flows observe calls o).win
        ≡ bumped cid protocol port
            (port_entry cid (entry_key protocol port) o.win)
            (times_to cid protocol port calls)
  record_flows-bumped [] o given pos = refl
  record_flows-bumped ((now, f) ∷ calls) o given pos =
      record_flows-bumped calls (record_flow observe now f o) given pos
      ∙ (ap (λ e. bumped cid protocol port e (times_to cid protocol port calls))
            (record_flow-entry now f o given pos)
          ∙ bumped-if cid protocol port (is_to cid protocol port f)
              (port_entry cid (entry_key protocol port) o.win) (timed now f).seen_at
              (times_to cid protocol port calls))

  -- The entry of a port, after any flows, by the flows to it.
  pub record_flows-observed :
      (calls : List (ℕ × Flow)) (start : ℕ) (store : Option S)
      → is_empty cid ≡ false
      → 0 < port
      → port_entry cid
          (entry_key protocol port)
          (record_flows observe calls (record { win = []; start = start; store = store })).win
        ≡ observed cid protocol port (times_to cid protocol port calls)
  unfolding lookup
  record_flows-observed calls start store given pos =
      record_flows-bumped calls (record { win = []; start = start; store = store }) given pos
      ∙ bumped-none cid protocol port (times_to cid protocol port calls)
