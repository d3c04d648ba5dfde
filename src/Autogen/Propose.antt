-- ===== src/Autogen/Propose.antt =====
-- `Propose` of backend/internal/autogen/observer.go. How Go prints a duration is a parameter.
pub mod Sorting
pub mod Ripe
use firefik.Prelude.{
  ℕ, ◌+◌, ◌-◌, ◌%◌, ◌^◌, Bool, true, false, ◌&&◌, List, [], ◌∷◌, Text, codes, length, ltb, leb,
  ◌==◌, if◌then◌else◌,
}
use firefik.Autogen.{
  PortObservation, PeerObservation, ContainerObservation, Observations, Observer, Proposal,
}

-- `>=` on values of type `int`, by their 64 bits.
abbrev pub at_least : ℕ → ℕ → Bool
at_least a b = leb ((b + 2 ^ 63) % 2 ^ 64) ((a + 2 ^ 63) % 2 ^ 64)

-- `sort.Slice` and `sort.Strings`.
module _ {ℓ} {A : Type ℓ} (less : A → A → Bool) where
  unfoldable pub insert_sorted : A → List A → List A
  insert_sorted x [] = x ∷ []
  insert_sorted x (y ∷ ys) =
      let rest = insert_sorted x ys in if less y x then y ∷ rest else x ∷ y ∷ ys

  unfoldable pub sorted : List A → List A
  unfolding insert_sorted
  sorted [] = []
  sorted (x ∷ xs) = insert_sorted x (sorted xs)

abbrev pub text_less : Text → Text → Bool
text_less s [] = false
text_less [] (d ∷ ds) = true
text_less (c ∷ cs) (d ∷ ds) = let rest = text_less cs ds in if c == d then rest else ltb c d

-- The ports that were seen often enough, for long enough. The age that is asked for is not negative.
abbrev pub is_ripe : ℕ → ℕ → ℕ → PortObservation → Bool
is_ripe min_observations min_age now po =
    at_least po.count min_observations && leb (po.first_at + min_age) now

module _ (min_observations min_age now : ℕ) where
  abbrev pub ripe_ports : List (Text × PortObservation) → List ℕ
  ripe_ports [] = []
  ripe_ports ((key, po) ∷ ports) =
      if is_ripe min_observations min_age now po
      then po.port ∷ ripe_ports ports
      else ripe_ports ports

  abbrev ripe_peers : List (Text × PeerObservation) → List Text
  ripe_peers [] = []
  ripe_peers ((key, pe) ∷ peers) =
      if at_least pe.count min_observations then pe.ip ∷ ripe_peers peers else ripe_peers peers

-- The window in nanoseconds: an hour, and a day.
abbrev pub confidence_tier : ℕ → ℕ → ℕ → Text
confidence_tier port_count peer_count window =
    if ltb window 3600000000000
    then codes "warming"
    else if ltb window 86400000000000
    then codes "tentative"
    else if leb 50 (port_count + peer_count)
    then codes "high"
    else codes "moderate"

module _ (show_window : ℕ → Text) (min_observations min_age now since : ℕ) where
  abbrev pub proposal_for : Text → ContainerObservation → Proposal
  proposal_for cid obs =
      let ports = sorted ltb (ripe_ports min_observations min_age now obs.ports) in
      let peers = sorted text_less (ripe_peers min_observations min_age now obs.peers) in
      record {
        container_id = cid;
        ports = ports;
        peers = peers;
        observed_for = show_window since;
        confidence = confidence_tier (length ports) (length peers) since;
      }

  abbrev pub proposals_for : Observations → List Proposal
  proposals_for [] = []
  proposals_for ((cid, obs) ∷ win) =
      let p = proposal_for cid obs in
      if ltb 0 (length p.ports + length p.peers) then p ∷ proposals_for win else proposals_for win

-- The calls of `time.Since`, which follow one another, give the time of one moment.
module _ {S : Type 0} (show_window : ℕ → Text) where
  unfoldable pub propose : ℕ → ℕ → ℕ → Observer S → List Proposal
  propose min_observations min_age now o =
      sorted (λ p q. text_less p.container_id q.container_id)
        (proposals_for show_window min_observations min_age now (now - o.start) o.win)
