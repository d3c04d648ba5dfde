-- ===== src/LogStream/Hub/Places.antt =====
-- Where a client stands: in the channel of registrations, with a late caller, or in the map. It is in one
-- place at most, and in none once its channel is closed.
use firefik.Prelude.{
  ℕ, ◌+◌, ◌≤◌, ◌≡◌, refl, sym, subst, Bool, true, false, List, [], ◌∷◌, ◌++◌, All, ◌==◌, ==_eq,
  Bool-cases, inl, inr, arith,
}
use firefik.LogStream.Hub.{Hub, RunState, waiting, visiting, stopped, has, remove_first}

abbrev pub bit : Bool → ℕ
bit true = 1
bit false = 0

abbrev pub count : ℕ → List ℕ → ℕ
count c [] = 0
count c (x ∷ xs) = bit (x == c) + count c xs

pub count-append : (c x : ℕ) (xs : List ℕ) → count c (xs ++ x ∷ []) ≡ count c xs + bit (x == c)
count-append c x [] = omega arith
count-append c x (y ∷ ys) = omega (arith, count-append c x ys)

pub count-remove_first :
    (c d : ℕ) (xs : List ℕ)
    → has c xs ≡ true
    → count d (remove_first c xs) + bit (c == d) ≡ count d xs
unfolding has remove_first
count-remove_first c d [] h = cc
count-remove_first c d (x ∷ xs) h = elim (Bool-cases (x == c)) [
  | inl same ↦ rw (same, ==_eq same) (omega arith)
  | inr other ↦ rw other (omega (arith, count-remove_first c d xs (rw other at h)))
]

abbrev pub places : ℕ → Hub → ℕ
places c h = count c h.register + (count c h.late_register + bit (h.clients c))

abbrev pub Todo : (ℕ → Bool) → RunState → Type 0
Todo clients waiting = Unit
Todo clients (visiting m told todo) = All (λ c. clients c ≡ true) todo
Todo clients stopped = Unit

pub record IsSound (h : Hub) : Type 0 where
  pub one_place : (c : ℕ) → places c h ≤ bit (h.store c).is_open
  pub unborn : (c : ℕ) → h.next ≤ c → places c h ≡ 0
  pub members_only : Todo h.clients h.run

-- A client in the map has an open channel.
pub member_open : (h : Hub) → IsSound h → (c : ℕ) → h.clients c ≡ true → (h.store c).is_open ≡ true
member_open h s c m = go (h.store c).is_open (s.one_place c)
  where
    go : (b : Bool) → places c h ≤ bit b → b ≡ true
    go true le = refl
    go false le = absurd (omega (arith, subst (λ b. bit b ≡ 1) (sym m) refl))
