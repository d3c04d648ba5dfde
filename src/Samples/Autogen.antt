-- ===== src/Samples/Autogen.antt =====
-- Flows that are observed, and the proposals that are decided.
use firefik.Prelude.{
  ◌↔◌, ◌<◌, Any, false, map, ℕ, ◌≡◌, refl, none, some, List, [], ◌∷◌, Text, codes, arith, text_eq,
  lookup, insert,
}
use firefik.Strings.{is_empty}
use firefik.Autogen.Propose.{propose, sorted, insert_sorted}
use firefik.Autogen.Propose.Ripe.{IsDue, Proposes, propose-Proposes}
use firefik.Autogen.{
  PortObservation, record_flow, Flow, Proposal, entry_key, port_key, record_flows,
}
use firefik.Autogen.Counts.{port_entry, times_to, observed}
use firefik.Autogen.MemStore.{
  MemStore, observe_in_memory, upsert_proposal, mark_proposal, new_memory_store, snapshot_in_memory,
}
use firefik.Autogen.MemStore.Mirror.{new_observer, record_flows-in_memory}
use firefik.Autogen.MemStore.Decisions.{upsert_all, Decided, upsert_all-mark_proposal}
use firefik.Autogen.Sqlite.{
  Row, upsert_row, observe_in_sqlite, row_port, snapshot, snapshot_by_container,
}
use firefik.Autogen.Sqlite.Totals.{count_of, snapshot-forgets}

abbrev web_from : Text → ℕ → Flow
web_from peer time = record {
  container_id = codes "abc";
  protocol = codes "tcp";
  port = 80;
  peer_ip = peer;
  seen_at = time;
}

abbrev two_flows : List (ℕ × Flow)
two_flows = (7, web_from (codes "10.0.0.1") 5) ∷ (9, web_from (codes "10.0.0.2") 0) ∷ []

two_seen :
    observed (codes "abc") (codes "tcp") 80 (times_to (codes "abc") (codes "tcp") 80 two_flows)
    ≡ some (record { protocol = codes "tcp"; port = 80; count = 2; first_at = 5; last_at = 9 })
unfolding text_eq
two_seen = refl

record_flows-in_memory_example :
    (m : MemStore) × ((record_flows observe_in_memory two_flows (new_observer 1)).store ≡ some m)
    × (port_entry
          (codes "abc")
          (entry_key (codes "tcp") 80)
          (record_flows observe_in_memory two_flows (new_observer 1)).win
        ≡ observed
            (codes "abc")
            (codes "tcp")
            80
            (times_to (codes "abc") (codes "tcp") 80 two_flows))
    × (port_entry (codes "abc") (entry_key (codes "tcp") 80) (snapshot_in_memory m)
        ≡ observed
            (codes "abc")
            (codes "tcp")
            80
            (times_to (codes "abc") (codes "tcp") 80 two_flows))
record_flows-in_memory_example =
    record_flows-in_memory 1 two_flows (codes "abc") (codes "tcp") 80 refl (omega arith)

abbrev web_proposal : Proposal
web_proposal = record {
  container_id = codes "abc";
  ports = 80 ∷ [];
  peers = [];
  observed_for = codes "1h0m0s";
  confidence = codes "tentative";
}

abbrev proposed : MemStore
proposed = upsert_proposal 10 web_proposal new_memory_store

abbrev rejected : MemStore
rejected =
    (mark_proposal 20 (codes "abc") (codes "rejected") (codes "ann") (codes "too wide") proposed).0

rejects :
    mark_proposal 20 (codes "abc") (codes "rejected") (codes "ann") (codes "too wide") proposed
    ≡ (rejected, none)
unfolding mark_proposal upsert_proposal lookup insert text_eq
rejects = refl

upsert_all-mark_proposal_example :
    Decided
      (codes "abc")
      20
      (codes "rejected")
      (codes "ann")
      (codes "too wide")
      (upsert_all ((30, web_proposal) ∷ []) rejected)
upsert_all-mark_proposal_example =
    upsert_all-mark_proposal (codes "abc") 20 (codes "rejected") (codes "ann") (codes "too wide")
      proposed rejected ((30, web_proposal) ∷ []) refl rejects

abbrev row_from : Text → Row
row_from peer = record {
  container_id = codes "abc";
  proto = codes "tcp";
  port = 80;
  peer_ip = peer;
  count = 1;
  first_at = 5;
  last_at = 5;
}

abbrev first_row : Row
first_row = row_from (codes "10.0.0.1")

abbrev second_row : Row
second_row = row_from (codes "10.0.0.2")

-- Two peers make two rows.
two_rows :
    (observe_in_sqlite 9 (web_from (codes "10.0.0.2") 5) (first_row ∷ [])).0
    ≡ first_row ∷ second_row ∷ []
unfolding observe_in_sqlite upsert_row text_eq
two_rows = refl

abbrev web_key : Text
web_key = entry_key (codes "tcp") 80

snapshot-forgets_example :
    (count_of
        (lookup web_key (snapshot_by_container (codes "abc") (first_row ∷ second_row ∷ [])).ports)
      ≡ 2)
    × (port_entry (codes "abc") web_key (snapshot (first_row ∷ second_row ∷ []))
        ≡ some (row_port second_row))
unfolding text_eq port_key
snapshot-forgets_example =
    snapshot-forgets (codes "abc") web_key (first_row ∷ []) second_row
      (omega arith, (omega arith, tt))

abbrev in_seconds : ℕ → Text
in_seconds n = codes "1h0m0s"

two_flows_proposed :
    map
      (λ (p : Proposal). p.ports)
      (propose in_seconds 2 3 9 (record_flows observe_in_memory two_flows (new_observer 1)))
    ≡ (80 ∷ []) ∷ []
unfolding propose sorted insert_sorted record_flow port_key lookup insert text_eq
two_flows_proposed = refl

propose-Proposes_example :
    Any
      (Proposes 2 3 9 80 (codes "abc"))
      (propose in_seconds 2 3 9 (record_flows observe_in_memory two_flows (new_observer 1)))
    ↔ ((protocol : Text) × (po : PortObservation) × (observed
            (codes "abc")
            protocol
            80
            (times_to (codes "abc") protocol 80 two_flows)
          ≡ some po)
        × IsDue 2 3 9 po
        × (is_empty (codes "abc") ≡ false)
        × (0 < 80))
propose-Proposes_example =
    propose-Proposes observe_in_memory two_flows 1 (some new_memory_store) in_seconds 2 3 9
      (codes "abc") 80
