-- ===== src/Autogen/MemStore/Decisions.antt =====
-- What is decided of a proposal, and the proposals that come after it.
use firefik.Prelude.{
  ℕ, ◌≡◌, refl, sym, ap, subst, ◌∙◌, Option, false, none, some, List, [], ◌∷◌, Text, lookup,
  lookup-insert, lookup-insert_other, text_eq, text_eq_iff, Bool-cases, inl, inr,
}
use firefik.Strings.{is_empty}
use firefik.Autogen.{Proposal}
use firefik.Autogen.MemStore.{
  ProposalRecord, MemStore, with_decision, fresh_record, renewed, decided, mark_found,
  upsert_proposal, mark_proposal,
}

-- Proposals, each at its time.
abbrev pub upsert_all : List (ℕ × Proposal) → MemStore → MemStore
upsert_all [] m = m
upsert_all ((now, p) ∷ ps) m = upsert_all ps (upsert_proposal now p m)

-- The record of the identifier says this decision.
abbrev pub Decided : Text → ℕ → Text → Text → Text → MemStore → Type 0
Decided cid at_time status by reason m =
    (rec : ProposalRecord) × (lookup cid m.proposals ≡ some rec)
    × (rec.status ≡ status)
    × (rec.decided_at ≡ at_time)
    × (rec.decided_by ≡ by)
    × (rec.reason ≡ reason)

module _ (cid : Text) (at_time : ℕ) (status by reason : Text) where
  renewed-Decided :
      (now : ℕ) (p : Proposal) (m : MemStore)
      → is_empty status ≡ false
      → Decided cid at_time status by reason m
      → Decided cid at_time status by reason (upsert_proposal now p m)
  unfolding upsert_proposal
  renewed-Decided now p m given (rec, is, stays, time, who, why) =
      elim (Bool-cases (text_eq p.container_id cid)) [
        | inl same ↦
            let e : p.container_id ≡ cid = (text_eq_iff p.container_id cid).0 same in
            let kept : is_empty rec.status ≡ false = rw stays given in
            let found : lookup p.container_id m.proposals ≡ some rec =
              subst (λ k. lookup k m.proposals ≡ some rec) (sym e) is in
            let next : renewed now p (lookup p.container_id m.proposals)
                ≡ with_decision rec (fresh_record now p) =
              rw (found, kept) refl in
            (
              with_decision rec (fresh_record now p),
              subst
                  (λ k.
                    lookup k (upsert_proposal now p m).proposals
                    ≡ some (with_decision rec (fresh_record now p)))
                  e
                  (lookup-insert p.container_id (renewed now p (lookup p.container_id m.proposals))
                      m.proposals
                    ∙ ap some next),
              stays,
              time,
              who,
              why,
            )
        | inr other ↦ (
          rec,
          lookup-insert_other p.container_id cid (renewed now p (lookup p.container_id m.proposals))
                m.proposals other
              ∙ is,
          stays,
          time,
          who,
          why,
        )
      ]

  upsert_all-Decided :
      (ps : List (ℕ × Proposal)) (m : MemStore)
      → is_empty status ≡ false
      → Decided cid at_time status by reason m
      → Decided cid at_time status by reason (upsert_all ps m)
  upsert_all-Decided [] m given h = h
  upsert_all-Decided ((now, p) ∷ ps) m given h =
      upsert_all-Decided ps (upsert_proposal now p m) given (renewed-Decided now p m given h)

  mark_proposal-Decided :
      (m m' : MemStore)
      → mark_proposal at_time cid status by reason m ≡ (m', none)
      → Decided cid at_time status by reason m'
  unfolding mark_proposal
  mark_proposal-Decided m m' h = go (lookup cid m.proposals) h
    where
      go :
          (o : Option ProposalRecord)
          → mark_found at_time cid status by reason m o ≡ (m', none)
          → Decided cid at_time status by reason m'
      go none h = let error = ap (λ q. q.1) h in cc
      go (some rec) h = subst (Decided cid at_time status by reason) (ap (λ q. q.0) h) (
        decided at_time status by reason rec,
        lookup-insert cid (decided at_time status by reason rec) m.proposals,
        refl,
        refl,
        refl,
        refl,
      )

-- A decision on a proposal, with a status that is not empty, stands whatever proposals come after
-- it, for its container or for others.
pub upsert_all-mark_proposal :
    (cid : Text) (now : ℕ) (status by reason : Text) (m m' : MemStore) (ps : List (ℕ × Proposal))
    → is_empty status ≡ false
    → mark_proposal now cid status by reason m ≡ (m', none)
    → Decided cid now status by reason (upsert_all ps m')
upsert_all-mark_proposal cid now status by reason m m' ps given h =
    upsert_all-Decided cid now status by reason ps m' given
      (mark_proposal-Decided cid now status by reason m m' h)
