-- ===== src/Autogen/Sqlite/Totals.antt =====
-- The counts of the ports in the two snapshots.
use firefik.Prelude.{
  ℕ, ◌+◌, ◌%◌, ◌^◌, ◌<◌, ◌≡◌, refl, sym, ap, subst, ◌∙◌, Bool, true, false, ◌&&◌, Option, none,
  some, List, [], ◌∷◌, ◌++◌, Text, text_eq, text_eq_iff, lookup, insert, lookup-insert,
  lookup-insert_other, All, Bool-cases, inl, inr, arith, if◌then◌else◌,
}
use firefik.Autogen.{
  PortObservation, ContainerObservation, Observations, no_observation, or_none_yet,
}
use firefik.Autogen.Counts.{port_entry}
use firefik.Autogen.Sqlite.{
  Row, row_key, row_port, with_row, snapshot_rows, snapshot, joined_port, joined_row, joined_rows,
  snapshot_by_container,
}

abbrev pub count_of : Option PortObservation → ℕ
count_of none = 0
count_of (some p) = p.count

module _ (cid key : Text) where
  abbrev is_in : Row → Bool
  is_in r = text_eq r.container_id cid && text_eq (row_key r) key

  -- The counts of the container's rows with the key, added.
  abbrev pub row_total : List Row → ℕ
  row_total [] = 0
  row_total (r ∷ rs) = if is_in r then r.count + row_total rs else row_total rs

abbrev Fits : Row → Type 0
Fits r = r.count < 2 ^ 64

unchanged : (n : ℕ) → n < 2 ^ 64 → n ≡ (n + 0) % 2 ^ 64
unchanged n h = omega (arith, h)

below : (n : ℕ) → n % 2 ^ 64 < 2 ^ 64
below n = omega arith

added : (c d t : ℕ) → ((c + d) % 2 ^ 64 + t) % 2 ^ 64 ≡ (c + (d + t)) % 2 ^ 64
added c d t = omega arith

zero_add : (n : ℕ) → (0 + n) % 2 ^ 64 ≡ n % 2 ^ 64
zero_add n = omega arith

join-count :
    (r : Row) (o : Option PortObservation)
    → Fits r
    → count_of (some (joined_port r o)) ≡ (count_of o + r.count) % 2 ^ 64
join-count r none h = omega (arith, h)
join-count r (some p) h = refl

module _ (cid key : Text) where
  round-count :
      (r : Row) (co : ContainerObservation)
      → Fits r
      → text_eq r.container_id cid ≡ true
      → count_of (lookup key co.ports) < 2 ^ 64
      → count_of (lookup key (joined_row r co).ports)
        ≡ (count_of (lookup key co.ports) + (if is_in cid key r then r.count else 0)) % 2 ^ 64
  round-count r co h own small = elim (Bool-cases (text_eq (row_key r) key)) [
    | inl same ↦
        subst
          (λ k.
            count_of (lookup k (joined_row r co).ports)
            ≡ (count_of (lookup k co.ports) + (if is_in cid key r then r.count else 0)) % 2 ^ 64)
          ((text_eq_iff (row_key r) key).0 same)
          (rw (own, same)
            (ap count_of
                (lookup-insert (row_key r) (joined_port r (lookup (row_key r) co.ports)) co.ports)
              ∙ join-count r (lookup (row_key r) co.ports) h))
    | inr other ↦
        rw
          (
            own,
            other,
            lookup-insert_other (row_key r) key (joined_port r (lookup (row_key r) co.ports))
                co.ports other,
          )
          (unchanged (count_of (lookup key co.ports)) small)
  ]

  row_total-cons :
      (b : Bool) (r : Row) (rs : List Row)
      → (if b then r.count else 0) + row_total cid key rs
        ≡ (if b then r.count + row_total cid key rs else row_total cid key rs)
  row_total-cons true r rs = refl
  row_total-cons false r rs = omega arith

  joined_rows-if :
      (r : Row) (rs : List Row) (co : ContainerObservation) (b : Bool)
      → text_eq r.container_id cid ≡ b
      → count_of (lookup key (joined_rows cid (r ∷ rs) co).ports)
        ≡ count_of (lookup key (joined_rows cid rs (if b then joined_row r co else co)).ports)
  unfolding joined_rows
  joined_rows-if r rs co b is =
      ap (λ b. count_of (lookup key (joined_rows cid rs (if b then joined_row r co else co)).ports))
        is

  rows-count :
      (rows : List Row) (co : ContainerObservation)
      → All Fits rows
      → count_of (lookup key co.ports) < 2 ^ 64
      → count_of (lookup key (joined_rows cid rows co).ports)
        ≡ (count_of (lookup key co.ports) + row_total cid key rows) % 2 ^ 64
  unfolding joined_rows
  rows-count [] co h small = unchanged (count_of (lookup key co.ports)) small
  rows-count (r ∷ rs) co (h, hs) small = elim (Bool-cases (text_eq r.container_id cid)) [
    | inl own ↦
        let here = round-count r co h own small in
        let fits : count_of (lookup key (joined_row r co).ports) < 2 ^ 64 =
          subst (λ n. n < 2 ^ 64) (sym here)
            (below (count_of (lookup key co.ports) + (if is_in cid key r then r.count else 0))) in
        joined_rows-if r rs co true own
        ∙ (rows-count rs (joined_row r co) hs fits
            ∙ (ap (λ n. (n + row_total cid key rs) % 2 ^ 64) here
                ∙ (added (count_of (lookup key co.ports)) (if is_in cid key r then r.count else 0)
                      (row_total cid key rs)
                    ∙ ap (λ n. (count_of (lookup key co.ports) + n) % 2 ^ 64)
                        (row_total-cons (is_in cid key r) r rs))))
    | inr other ↦ joined_rows-if r rs co false other ∙ rw other (rows-count rs co hs small)
  ]

-- After a row, the entry of its key is that row.
last-entry :
    (r : Row) (out : Observations)
    → port_entry r.container_id (row_key r) (snapshot_rows (r ∷ []) out) ≡ some (row_port r)
unfolding snapshot_rows
last-entry r out =
    let co : ContainerObservation = or_none_yet (lookup r.container_id out) in
    rw (lookup-insert r.container_id (with_row r co) out)
      (lookup-insert (row_key r) (row_port r) co.ports)

snapshot_rows-append :
    (rs ss : List Row) (out : Observations)
    → snapshot_rows (rs ++ ss) out ≡ snapshot_rows ss (snapshot_rows rs out)
unfolding snapshot_rows
snapshot_rows-append [] ss out = refl
snapshot_rows-append (r ∷ rs) ss out =
    snapshot_rows-append rs ss
      (insert r.container_id (with_row r (or_none_yet (lookup r.container_id out))) out)

-- When the counts of the rows fit 64 bits: the snapshot of one container has, for each key, the
-- counts of its rows, added modulo 2 ^ 64; the snapshot of all containers has, for the key of the
-- last row, the count of that row alone, whatever rows come before it.
pub snapshot-forgets :
    (cid key : Text) (rs : List Row) (r : Row)
    → All Fits (rs ++ r ∷ [])
    → (count_of (lookup key (snapshot_by_container cid (rs ++ r ∷ [])).ports)
        ≡ row_total cid key (rs ++ r ∷ []) % 2 ^ 64)
      × (port_entry r.container_id (row_key r) (snapshot (rs ++ r ∷ [])) ≡ some (row_port r))
unfolding snapshot_by_container snapshot lookup
snapshot-forgets cid key rs r h = (
  rows-count cid key (rs ++ r ∷ []) no_observation h (omega arith)
      ∙ zero_add (row_total cid key (rs ++ r ∷ [])),
  ap (port_entry r.container_id (row_key r)) (snapshot_rows-append rs (r ∷ []) [])
      ∙ last-entry r (snapshot_rows rs []),
)
