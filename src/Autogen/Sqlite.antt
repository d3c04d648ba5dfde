-- ===== src/Autogen/Sqlite.antt =====
-- The observations that backend/internal/autogen/store.go keeps in SQLite: the table of flows, and the
-- two ways it is read. A query gives the rows in an order that is not fixed.
pub mod Totals
use firefik.Prelude.{
  ℕ, ◌+◌, ◌%◌, ◌^◌, Bool, true, false, ◌&&◌, ◌||◌, Option, none, some, List, [], ◌∷◌, Text, text_eq,
  lookup, insert, ltb, ◌==◌, if◌then◌else◌,
}
use firefik.Strings.{is_empty}
use firefik.Autogen.{
  PortObservation, PeerObservation, ContainerObservation, Observations, Flow, StoreError,
  container_id_required, Observe, timed, entry_key, no_observation, or_none_yet,
}

-- A row of the table `observations`, whose key is made of the first four fields.
pub record Row : Type 0 where
  pub container_id : Text
  pub proto : Text
  pub port : ℕ
  pub peer_ip : Text
  pub count : ℕ
  pub first_at : ℕ
  pub last_at : ℕ

abbrev pub has_key : Flow → Row → Bool
has_key f r =
    text_eq r.container_id f.container_id
    && (text_eq r.proto f.protocol && (r.port == f.port && text_eq r.peer_ip f.peer_ip))

abbrev row_of : Flow → Row
row_of f = record {
  container_id = f.container_id;
  proto = f.protocol;
  port = f.port;
  peer_ip = f.peer_ip;
  count = 1;
  first_at = f.seen_at;
  last_at = f.seen_at;
}

-- The insertion of a flow, or its update on a conflict.
unfoldable pub upsert_row : Flow → List Row → List Row
upsert_row f [] = row_of f ∷ []
upsert_row f (r ∷ rs) =
    let rest = upsert_row f rs in
    if has_key f r then record r { count = r.count + 1; last_at = f.seen_at } ∷ rs else r ∷ rest

unfoldable pub observe_in_sqlite : Observe (List Row)
unfolding upsert_row
observe_in_sqlite now f rows =
    if is_empty f.container_id
    then (rows, some container_id_required)
    else (upsert_row (timed now f) rows, none)

-- `uint16` of the port.
abbrev pub row_key : Row → Text
row_key r = entry_key r.proto (r.port % 2 ^ 16)

abbrev pub row_port : Row → PortObservation
row_port r = record {
  protocol = r.proto;
  port = r.port % 2 ^ 16;
  count = r.count;
  first_at = r.first_at;
  last_at = r.last_at;
}

abbrev row_peer : Row → PeerObservation
row_peer r = record { ip = r.peer_ip; count = r.count; first_at = r.first_at; last_at = r.last_at }

abbrev later : ℕ → ℕ → ℕ
later t u = if ltb t u then u else t

abbrev earlier : ℕ → ℕ → ℕ
earlier t u = if ltb u t || t == 0 then u else t

-- One round of the loop of `Snapshot`.
abbrev pub with_row : Row → ContainerObservation → ContainerObservation
with_row r co = record {
  ports = insert (row_key r) (row_port r) co.ports;
  peers = if is_empty r.peer_ip then co.peers else insert r.peer_ip (row_peer r) co.peers;
  updated = later co.updated r.last_at;
}

unfoldable pub snapshot_rows : List Row → Observations → Observations
snapshot_rows [] out = out
snapshot_rows (r ∷ rs) out =
    snapshot_rows rs
      (insert r.container_id (with_row r (or_none_yet (lookup r.container_id out))) out)

unfoldable pub snapshot : List Row → Observations
unfolding snapshot_rows
snapshot rows = snapshot_rows rows []

abbrev pub joined_port : Row → Option PortObservation → PortObservation
joined_port r none = row_port r
joined_port r (some p) = record p {
  count = (p.count + r.count) % 2 ^ 64;
  first_at = earlier p.first_at r.first_at;
  last_at = later p.last_at r.last_at;
}

abbrev joined_peer : Row → Option PeerObservation → PeerObservation
joined_peer r none = row_peer r
joined_peer r (some p) = record p {
  count = (p.count + r.count) % 2 ^ 64;
  first_at = earlier p.first_at r.first_at;
  last_at = later p.last_at r.last_at;
}

-- One round of the loop of `SnapshotByContainer`.
abbrev pub joined_row : Row → ContainerObservation → ContainerObservation
joined_row r co = record {
  ports = insert (row_key r) (joined_port r (lookup (row_key r) co.ports)) co.ports;
  peers =
      if is_empty r.peer_ip
      then co.peers
      else insert r.peer_ip (joined_peer r (lookup r.peer_ip co.peers)) co.peers;
  updated = later co.updated r.last_at;
}

-- The rows of the container, joined.
unfoldable pub joined_rows : Text → List Row → ContainerObservation → ContainerObservation
joined_rows cid [] co = co
joined_rows cid (r ∷ rs) co =
    joined_rows cid rs (if text_eq r.container_id cid then joined_row r co else co)

unfoldable pub snapshot_by_container : Text → List Row → ContainerObservation
unfolding joined_rows
snapshot_by_container cid rows = joined_rows cid rows no_observation
