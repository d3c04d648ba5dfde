-- ===== src/Autogen/MemStore.antt =====
-- The store in memory of backend/internal/autogen/store.go, and the proposals that it keeps.
pub mod Mirror
pub mod Decisions
use firefik.Prelude.{
  ℕ, Bool, true, false, ◌||◌, Option, none, some, List, [], ◌∷◌, Text, codes, text_eq, lookup,
  insert, ltb, if◌then◌else◌,
}
use firefik.Strings.{is_empty}
use firefik.Autogen.{
  Proposal, Observations, ContainerObservation, Flow, StoreError, container_id_required,
  proposal_not_found, Observe, timed, observe_flow, or_none_yet,
}

-- A status is a string in the source, so that the empty one exists too.
abbrev pub status_pending : Text
status_pending = codes "pending"

pub record ProposalRecord : Type 0 where
  pub container_id : Text
  pub ports : List ℕ
  pub peers : List Text
  pub confidence : Text
  pub observed_for : Text
  pub generated_at : ℕ
  pub status : Text
  pub decided_at : ℕ
  pub decided_by : Text
  pub reason : Text

pub record MemStore : Type 0 where
  pub obs : Observations
  pub proposals : List (Text × ProposalRecord)

abbrev pub new_memory_store : MemStore
new_memory_store = record { obs = []; proposals = [] }

unfoldable pub observe_in_memory : Observe MemStore
unfolding observe_flow
observe_in_memory now f m =
    if is_empty f.container_id
    then (m, some container_id_required)
    else (record m { obs = observe_flow (timed now f) m.obs }, none)

abbrev pub fresh_record : ℕ → Proposal → ProposalRecord
fresh_record now p = record {
  container_id = p.container_id;
  ports = p.ports;
  peers = p.peers;
  confidence = p.confidence;
  observed_for = p.observed_for;
  generated_at = now;
  status = status_pending;
  decided_at = 0;
  decided_by = [];
  reason = [];
}

abbrev pub with_decision : ProposalRecord → ProposalRecord → ProposalRecord
with_decision existing rec = record rec {
  status = existing.status;
  decided_at = existing.decided_at;
  decided_by = existing.decided_by;
  reason = existing.reason;
}

-- The record of a proposal, with what was decided of the one before.
abbrev pub renewed : ℕ → Proposal → Option ProposalRecord → ProposalRecord
renewed now p none = fresh_record now p
renewed now p (some existing) =
    if is_empty existing.status
    then fresh_record now p
    else with_decision existing (fresh_record now p)

unfoldable pub upsert_proposal : ℕ → Proposal → MemStore → MemStore
upsert_proposal now p m = record m {
  proposals = insert p.container_id (renewed now p (lookup p.container_id m.proposals)) m.proposals;
}

abbrev is_one_of : Text → List Text → Bool
is_one_of s [] = false
is_one_of s (t ∷ ts) = text_eq t s || is_one_of s ts

abbrev wanted : List Text → Text → Bool
wanted statuses s = is_empty statuses || is_one_of s statuses

abbrev with_status : List Text → List (Text × ProposalRecord) → List ProposalRecord
with_status statuses [] = []
with_status statuses ((cid, rec) ∷ m) =
    if wanted statuses rec.status then rec ∷ with_status statuses m else with_status statuses m

-- `sort.Slice` by the time of the proposal, the newest first.
abbrev by_newest : ProposalRecord → List ProposalRecord → List ProposalRecord
by_newest r [] = r ∷ []
by_newest r (s ∷ rs) =
    let rest = by_newest r rs in if ltb r.generated_at s.generated_at then s ∷ rest else r ∷ s ∷ rs

abbrev newest_first : List ProposalRecord → List ProposalRecord
newest_first [] = []
newest_first (r ∷ rs) = by_newest r (newest_first rs)

unfoldable pub list_proposals : List Text → MemStore → List ProposalRecord
list_proposals statuses m = newest_first (with_status statuses m.proposals)

abbrev pub decided : ℕ → Text → Text → Text → ProposalRecord → ProposalRecord
decided now status decided_by reason rec = record rec {
  status = status;
  decided_at = now;
  decided_by = decided_by;
  reason = reason;
}

abbrev pub mark_found :
    ℕ → Text → Text → Text → Text → MemStore → Option ProposalRecord → MemStore × Option StoreError
mark_found now cid status decided_by reason m none = (m, some proposal_not_found)
mark_found now cid status decided_by reason m (some rec) = (
  record m { proposals = insert cid (decided now status decided_by reason rec) m.proposals },
  none,
)

unfoldable pub mark_proposal :
    ℕ → Text → Text → Text → Text → MemStore → MemStore × Option StoreError
mark_proposal now cid status decided_by reason m =
    mark_found now cid status decided_by reason m (lookup cid m.proposals)

-- `SnapshotByContainer`, which has no observation for a missing key, and `Snapshot`: copies.
abbrev pub snapshot_by_container_in_memory : Text → MemStore → ContainerObservation
snapshot_by_container_in_memory cid m = or_none_yet (lookup cid m.obs)

abbrev pub snapshot_in_memory : MemStore → Observations
snapshot_in_memory m = m.obs
