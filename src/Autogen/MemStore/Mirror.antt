-- ===== src/Autogen/MemStore/Mirror.antt =====
-- The observer and its store in memory.
use firefik.Prelude.{
  ℕ, ◌<◌, ◌≡◌, refl, ap, ap₂, Text, ◌∙◌, false, some, List, [], ◌∷◌, ◌==◌, Bool-cases, inl, inr,
}
use firefik.Strings.{is_empty}
use firefik.Autogen.{entry_key, Flow, Observer, timed, observe_flow, record_flow, record_flows}
use firefik.Autogen.MemStore.{MemStore, new_memory_store, observe_in_memory, snapshot_in_memory}
use firefik.Autogen.Counts.{port_entry, times_to, observed, record_flows-observed}

-- `NewObserver`.
abbrev pub new_observer : ℕ → Observer MemStore
new_observer start = record { win = []; start = start; store = some new_memory_store }

-- The store holds what the observer holds.
abbrev pub Mirrors : Observer MemStore → Type 0
Mirrors o = (m : MemStore) × (o.store ≡ some m) × (m.obs ≡ o.win)

timed_twice : (now : ℕ) (f : Flow) → timed now (timed now f) ≡ timed now f
timed_twice now f = elim (Bool-cases (f.seen_at == 0)) [
  | inl unset ↦ elim (Bool-cases (now == 0)) [
    | inl z ↦ rw (unset, z) refl
    | inr nz ↦ rw (unset, nz) refl
  ]
  | inr set ↦ rw (set, set) refl
]

record_flow-Mirrors :
    (now : ℕ) (f : Flow) (o : Observer MemStore)
    → Mirrors o
    → Mirrors (record_flow observe_in_memory now f o)
unfolding record_flow observe_in_memory
record_flow-Mirrors now f o (m, is, same) = elim (Bool-cases (is_empty f.container_id)) [
  | inl nameless ↦ rw nameless (m, is, same)
  | inr named ↦
      rw (named, is, named)
        (
          record m { obs = observe_flow (timed now (timed now f)) m.obs },
          refl,
          ap₂ observe_flow (timed_twice now f) same,
        )
]

record_flows-Mirrors :
    (start : ℕ) (calls : List (ℕ × Flow))
    → Mirrors (record_flows observe_in_memory calls (new_observer start))
record_flows-Mirrors start calls = go calls (new_observer start) (new_memory_store, refl, refl)
  where
    go :
        (calls : List (ℕ × Flow)) (o : Observer MemStore)
        → Mirrors o
        → Mirrors (record_flows observe_in_memory calls o)
    go [] o h = h
    go ((now, f) ∷ calls) o h =
        go calls (record_flow observe_in_memory now f o) (record_flow-Mirrors now f o h)

-- A new observer with a store in memory, a container with an identifier and a positive port:
-- whatever flows are recorded, the observer has an entry of the port exactly if one of them was to
-- it, with their number, modulo 2 ^ 64, and the times of the first and of the last, and so has the
-- store's snapshot.
pub record_flows-in_memory :
    (start : ℕ) (calls : List (ℕ × Flow)) (cid protocol : Text) (port : ℕ)
    → is_empty cid ≡ false
    → 0 < port
    → (m : MemStore) × ((record_flows observe_in_memory calls (new_observer start)).store ≡ some m)
      × (port_entry cid
            (entry_key protocol port)
            (record_flows observe_in_memory calls (new_observer start)).win
          ≡ observed cid protocol port (times_to cid protocol port calls))
      × (port_entry cid (entry_key protocol port) (snapshot_in_memory m)
          ≡ observed cid protocol port (times_to cid protocol port calls))
record_flows-in_memory start calls cid protocol port given pos =
    let (m, is, same) = record_flows-Mirrors start calls in
    let counted =
      record_flows-observed observe_in_memory cid protocol port calls start (some new_memory_store)
        given pos in
    (m, is, counted, ap (port_entry cid (entry_key protocol port)) same ∙ counted)
