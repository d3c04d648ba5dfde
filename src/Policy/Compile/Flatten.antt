-- ===== src/Policy/Compile/Flatten.antt =====
-- The splitting of an expression into terms and predicates keeps its meaning.
use firefik.Prelude.{
  ◌≡◌, refl, ap₂, ◌∙◌, Bool, true, false, ◌&&◌, ◌||◌, not, List, [], ◌∷◌, ◌++◌, arith,
}
use firefik.Policy.Ast.{Expr, and_expr, or_expr, not_expr}
use firefik.Policy.Compile.{flatten_or, flatten_and}

-- Whether a connection satisfies an expression, given the answers on comparisons and memberships.
unfoldable pub holds : (Expr → Bool) → Expr → Bool
holds v (and_expr l r) = holds v l && holds v r
holds v (or_expr l r) = holds v l || holds v r
holds v (not_expr e) = not (holds v e)
holds v e = v e

abbrev pub some_holds : (Expr → Bool) → List Expr → Bool
some_holds p [] = false
some_holds p (e ∷ es) = p e || some_holds p es

abbrev pub all_hold : (Expr → Bool) → List Expr → Bool
all_hold p [] = true
all_hold p (e ∷ es) = p e && all_hold p es

some_holds-append :
    (p : Expr → Bool) (xs ys : List Expr)
    → some_holds p (xs ++ ys) ≡ (some_holds p xs || some_holds p ys)
some_holds-append p [] ys = refl
some_holds-append p (x ∷ xs) ys = ground (arith, some_holds-append p xs ys)

all_hold-append :
    (p : Expr → Bool) (xs ys : List Expr) → all_hold p (xs ++ ys) ≡ (all_hold p xs && all_hold p ys)
all_hold-append p [] ys = refl
all_hold-append p (x ∷ xs) ys = ground (arith, all_hold-append p xs ys)

holds-flatten_or : (v : Expr → Bool) (e : Expr) → holds v e ≡ some_holds (holds v) (flatten_or e)
unfolding holds flatten_or
holds-flatten_or v (or_expr l r) = ground (
  arith,
  holds-flatten_or v l,
  holds-flatten_or v r,
  some_holds-append (holds v) (flatten_or l) (flatten_or r),
)
holds-flatten_or v e = ground arith

holds-flatten_and : (v : Expr → Bool) (e : Expr) → holds v e ≡ all_hold (holds v) (flatten_and e)
unfolding holds flatten_and
holds-flatten_and v (and_expr l r) = ground (
  arith,
  holds-flatten_and v l,
  holds-flatten_and v r,
  all_hold-append (holds v) (flatten_and l) (flatten_and r),
)
holds-flatten_and v e = ground arith

some_holds-ext :
    (p q : Expr → Bool)
    → ((e : Expr) → p e ≡ q e)
    → (es : List Expr) → some_holds p es ≡ some_holds q es
some_holds-ext p q h [] = refl
some_holds-ext p q h (e ∷ es) = ap₂ ◌||◌ (h e) (some_holds-ext p q h es)

-- A connection satisfies an expression exactly if it satisfies every predicate of one of the terms
-- that the compiler splits it into.
pub flatten_lem :
    (v : Expr → Bool) (e : Expr)
    → holds v e ≡ some_holds (λ term. all_hold (holds v) (flatten_and term)) (flatten_or e)
flatten_lem v e =
    holds-flatten_or v e ∙ some_holds-ext (holds v) _ (holds-flatten_and v) (flatten_or e)
