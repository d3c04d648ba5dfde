-- ===== src/Autogen.antt =====
-- backend/internal/autogen/observer.go. Times are numbers of nanoseconds, 0 the zero time, and `now` is
-- the time of the call. The observer's lock makes each call one step.
pub mod Keys
pub mod Counts
pub mod MemStore
pub mod Propose
pub mod WellFormed
pub mod Sqlite
use firefik.Prelude.{
  ℕ, zero, suc, ◌+◌, ◌/◌, ◌%◌, ◌^◌, Bool, true, false, Option, none, some, List, [], ◌∷◌, ◌++◌,
  Text, lookup, insert, ltb, ◌==◌, if◌then◌else◌,
}
use firefik.Strings.{is_empty}

-- A count is an `int`, by its 64 bits.
pub record PortObservation : Type 0 where
  pub protocol : Text
  pub port : ℕ
  pub count : ℕ
  pub first_at : ℕ
  pub last_at : ℕ

pub record PeerObservation : Type 0 where
  pub ip : Text
  pub count : ℕ
  pub first_at : ℕ
  pub last_at : ℕ

pub record ContainerObservation : Type 0 where
  pub ports : List (Text × PortObservation)
  pub peers : List (Text × PeerObservation)
  pub updated : ℕ

-- What is known of the containers, by their identifiers.
abbrev pub Observations : Type 0
Observations = List (Text × ContainerObservation)

pub record Flow : Type 0 where
  pub container_id : Text
  pub protocol : Text
  pub port : ℕ
  pub peer_ip : Text
  pub seen_at : ℕ

pub record Proposal : Type 0 where
  pub container_id : Text
  pub ports : List ℕ
  pub peers : List Text
  pub observed_for : Text
  pub confidence : Text

-- The digits of `portKey`, the last ones in front of `digits`. A port has no more digits than its value.
unfoldable pub port_digits : ℕ → ℕ → Text → Text
port_digits zero p digits = digits
port_digits (suc f) p digits =
    let more = port_digits f (p / 10) ((b'0' + p % 10) ∷ digits) in if p == 0 then digits else more

abbrev pub or_zero : Text → Text
or_zero [] = b'0' ∷ []
or_zero (d ∷ ds) = d ∷ ds

unfoldable pub port_key : ℕ → Text
unfolding port_digits
port_key p = or_zero (port_digits p p [])

abbrev pub entry_key : Text → ℕ → Text
entry_key protocol port = protocol ++ b'/' ∷ port_key port

abbrev pub no_observation : ContainerObservation
no_observation = record { ports = []; peers = []; updated = 0 }

abbrev pub or_none_yet : Option ContainerObservation → ContainerObservation
or_none_yet none = no_observation
or_none_yet (some obs) = obs

abbrev pub seen_port : Flow → Option PortObservation → PortObservation
seen_port f none = record {
  protocol = f.protocol;
  port = f.port;
  count = 1;
  first_at = f.seen_at;
  last_at = f.seen_at;
}
seen_port f (some p) = record p { count = (p.count + 1) % 2 ^ 64; last_at = f.seen_at }

abbrev pub seen_peer : Flow → Option PeerObservation → PeerObservation
seen_peer f none = record { ip = f.peer_ip; count = 1; first_at = f.seen_at; last_at = f.seen_at }
seen_peer f (some p) = record p { count = (p.count + 1) % 2 ^ 64; last_at = f.seen_at }

unfoldable pub with_port : Flow → ContainerObservation → ContainerObservation
with_port f obs =
    let key = entry_key f.protocol f.port in
    if ltb 0 f.port
    then record obs { ports = insert key (seen_port f (lookup key obs.ports)) obs.ports }
    else obs

unfoldable pub with_peer : Flow → ContainerObservation → ContainerObservation
with_peer f obs = if is_empty f.peer_ip then obs else record obs {
  peers = insert f.peer_ip (seen_peer f (lookup f.peer_ip obs.peers)) obs.peers;
}

-- The body of `Record`, behind its test of the identifier, but for the store.
unfoldable pub observe_flow : Flow → Observations → Observations
unfolding with_port with_peer
observe_flow f win =
    let obs = or_none_yet (lookup f.container_id win) in
    insert f.container_id (with_peer f (with_port f (record obs { updated = f.seen_at }))) win

-- The flow, seen now if it has no time.
abbrev pub timed : ℕ → Flow → Flow
timed now f = record f { seen_at = if f.seen_at == 0 then now else f.seen_at }

pub data StoreError : Type 0 where
  container_id_required : StoreError
  proposal_not_found : StoreError

-- `Observe` of the interface `Store`: it changes the store, or leaves it and returns an error.
abbrev pub Observe : Type 0 → Type 0
Observe S = ℕ → Flow → S → S × Option StoreError

pub record Observer (S : Type 0) : Type 0 where
  pub win : Observations
  pub start : ℕ
  pub store : Option S

module _ {S : Type 0} (observe : Observe S) where
  abbrev kept : ℕ → Flow → Option S → Option S
  kept now f none = none
  kept now f (some s) = some (observe now f s).0

  -- `Record`, which drops the error of the store.
  unfoldable pub record_flow : ℕ → Flow → Observer S → Observer S
  unfolding observe_flow
  record_flow now f o = if is_empty f.container_id then o else record o {
    win = observe_flow (timed now f) o.win;
    store = kept now (timed now f) o.store;
  }

  -- Calls of `Record`, each with its time.
  abbrev pub record_flows : List (ℕ × Flow) → Observer S → Observer S
  record_flows [] o = o
  record_flows ((now, f) ∷ calls) o = record_flows calls (record_flow now f o)
