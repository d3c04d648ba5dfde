-- ===== src/Rules/Iptables/Merge.antt =====
-- The verdicts of rules one behind the other, as one verdict.
use firefik.Prelude.{
  Bool, true, false, ◌≡◌, refl, sym, ap, ◌∙◌, ◌&&◌, ◌||◌, Option, none, some, if◌then◌else◌,
}
use firefik.Rules.Nftables.{Verdict, accept, drop}
use firefik.Rules.Nftables.Semantics.{or_else}
use firefik.Rules.Iptables.Semantics.{when}

pub or_else_assoc {ℓ} :
    {A : Type ℓ} (x y z : Option A) → or_else (or_else x y) z ≡ or_else x (or_else y z)
or_else_assoc none y z = refl
or_else_assoc (some a) y z = refl

pub or_else-none {ℓ} : {A : Type ℓ} (x : Option A) → or_else x none ≡ x
or_else-none none = refl
or_else-none (some a) = refl

-- The first network of a list with the source decides.
pub merge :
    (a b c : Bool) (v : Verdict) (x rest : Option Verdict)
    → or_else (when (a && (b && c)) (some v)) (or_else (when (a && b) x) rest)
      ≡ or_else (when (a && b) (if c then some v else x)) rest
merge true true true v x rest = refl
merge true true false v x rest = refl
merge true false c v x rest = refl
merge false b c v x rest = refl

pub limit_merge :
    (h w : Bool) (rest : Option Verdict)
    → or_else (when h (when w (some accept))) (or_else (when h (some drop)) rest)
      ≡ or_else (when h (some (if w then accept else drop))) rest
limit_merge true true rest = refl
limit_merge true false rest = refl
limit_merge false w rest = refl

pub three :
    (h : Bool) (a b c rest : Option Verdict)
    → or_else (when h a) (or_else (when h b) (or_else (when h c) rest))
      ≡ or_else (when h (or_else a (or_else b c))) rest
three true a b c rest =
    sym (or_else_assoc a (or_else b c) rest ∙ ap (or_else a) (or_else_assoc b c rest))
three false a b c rest = refl

pub ports_merge :
    (a e f : Bool) (v rest : Option Verdict)
    → or_else (when (a && e) v) (or_else (when (a && f) v) rest)
      ≡ or_else (when (a && (e || f)) v) rest
ports_merge true true true none rest = refl
ports_merge true true true (some v) rest = refl
ports_merge true true false v rest = refl
ports_merge true false f v rest = refl
ports_merge false e f v rest = refl

pub nothing : (b : Bool) (rest : Option Verdict) → rest ≡ or_else (when b none) rest
nothing true rest = refl
nothing false rest = refl
