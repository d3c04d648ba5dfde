-- ===== src/Autogen/WellFormed.antt =====
-- What holds of the observations of an observer at any time: their keys say what stands under them.
use firefik.Prelude.{
  ℕ, ◌<◌, ◌≡◌, refl, sym, ap, subst, ◌∙◌, false, Option, none, some, List, [], ◌∷◌, Text, text_eq,
  text_eq_iff, lookup, insert, lookup-insert, lookup-insert_other, Unique, insert-Unique, ltb,
  ltb→lt, is_some, Bool-cases, if_ind, inl, inr,
}
use firefik.Strings.{is_empty}
use firefik.Autogen.{
  PortObservation, ContainerObservation, Observations, Flow, Observe, Observer, entry_key,
  seen_port, or_none_yet, with_port, observe_flow, timed, record_flow, record_flows,
}
use firefik.Autogen.Counts.{after, observe_flow-insert, with_peer-ports}

abbrev pub WellFormedEntry : Text → PortObservation → Type 0
WellFormedEntry key po = (key ≡ entry_key po.protocol po.port) × (0 < po.port)

abbrev pub WellFormedPorts : List (Text × PortObservation) → Type 0
WellFormedPorts ports =
    Unique ports
    × ((key : Text) (po : PortObservation) → lookup key ports ≡ some po → WellFormedEntry key po)

abbrev pub WellFormed : Observations → Type 0
WellFormed win =
    Unique win
    × ((cid : Text) (obs : ContainerObservation)
        → lookup cid win ≡ some obs
        → (is_empty cid ≡ false) × WellFormedPorts obs.ports)

-- An insertion keeps what holds of each entry.
inserted {ℓ} :
    {A : Type ℓ} (P : Text → A → Type 0) (k : Text) (a : A) (m : List (Text × A))
    → P k a
    → ((j : Text) (b : A) → lookup j m ≡ some b → P j b)
    → (j : Text) (b : A) → lookup j (insert k a m) ≡ some b
    → P j b
inserted P k a m new old j b h = elim (Bool-cases (text_eq k j)) [
  | inl same ↦
      let e : k ≡ j = (text_eq_iff k j).0 same in
      let is : some a ≡ some b =
        sym (lookup-insert k a m) ∙ subst (λ i. lookup i (insert k a m) ≡ some b) (sym e) h in
      let there : a ≡ b = cc in subst (λ i. P i b) e (subst (P k) there new)
  | inr other ↦ old j b (sym (lookup-insert_other k j a m other) ∙ h)
]

seen_port-WellFormedEntry :
    (f : Flow) (o : Option PortObservation)
    → 0 < f.port
    → ((po : PortObservation) → o ≡ some po → WellFormedEntry (entry_key f.protocol f.port) po)
    → WellFormedEntry (entry_key f.protocol f.port) (seen_port f o)
seen_port-WellFormedEntry f none pos h = (refl, pos)
seen_port-WellFormedEntry f (some po) pos h = h po refl

with_port-WellFormedPorts :
    (f : Flow) (obs : ContainerObservation)
    → WellFormedPorts obs.ports
    → WellFormedPorts (with_port f obs).ports
unfolding with_port
with_port-WellFormedPorts f obs (unique, entries) =
    let key = entry_key f.protocol f.port in
    if_ind (λ (o : ContainerObservation). WellFormedPorts o.ports) (ltb 0 f.port)
      (λ given. (
        insert-Unique key (seen_port f (lookup key obs.ports)) obs.ports unique,
        inserted WellFormedEntry key (seen_port f (lookup key obs.ports)) obs.ports
            (seen_port-WellFormedEntry f (lookup key obs.ports) (ltb→lt 0 f.port given)
              (entries key))
            entries,
      ))
      (λ _. (unique, entries))

found-WellFormedPorts :
    (o : Option ContainerObservation)
    → ((obs : ContainerObservation) → o ≡ some obs → WellFormedPorts obs.ports)
    → WellFormedPorts (or_none_yet o).ports
unfolding lookup
found-WellFormedPorts none h = (tt, λ key po e. absurd (let there = ap is_some e in cc))
found-WellFormedPorts (some obs) h = h obs refl

observe_flow-WellFormed :
    (f : Flow) (win : Observations)
    → is_empty f.container_id ≡ false
    → WellFormed win
    → WellFormed (observe_flow f win)
observe_flow-WellFormed f win named (unique, entries) =
    let obs : ContainerObservation = record (or_none_yet (lookup f.container_id win)) {
      updated = f.seen_at;
    } in
    let ports : WellFormedPorts (after f win).ports =
      subst WellFormedPorts (sym (with_peer-ports f (with_port f obs))) (
        with_port-WellFormedPorts f obs (
          found-WellFormedPorts (lookup f.container_id win)
            (λ o e. (entries f.container_id o e).1))) in
    subst WellFormed (sym (observe_flow-insert f win)) (
      insert-Unique f.container_id (after f win) win unique,
      inserted (λ cid (o : ContainerObservation). (is_empty cid ≡ false) × WellFormedPorts o.ports)
          f.container_id (after f win) win (named, ports) entries,
    )

module _ {S : Type 0} (observe : Observe S) where
  record_flow-WellFormed :
      (now : ℕ) (f : Flow) (o : Observer S)
      → WellFormed o.win
      → WellFormed (record_flow observe now f o).win
  unfolding record_flow
  record_flow-WellFormed now f o h =
      if_ind (λ (p : Observer S). WellFormed p.win) (is_empty f.container_id) (λ _. h)
        (λ named. observe_flow-WellFormed (timed now f) o.win named h)

  pub record_flows-WellFormed :
      (calls : List (ℕ × Flow)) (o : Observer S)
      → WellFormed o.win
      → WellFormed (record_flows observe calls o).win
  record_flows-WellFormed [] o h = h
  record_flows-WellFormed ((now, f) ∷ calls) o h =
      record_flows-WellFormed calls (record_flow observe now f o) (record_flow-WellFormed now f o h)
