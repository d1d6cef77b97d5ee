-- ===== src/Prelude/Pool.antt =====
-- sync.Pool: Get may hand out any of the items that were put back, or a new one, so the place in the
-- pool is an argument. A Put of the program may clear an item first, or drop it.
use Prim.Native.Nat.{ℕ, zero, suc}
use mathlib.Core.Path.{◌≡◌, ◌∙◌, sym, ap, subst}
use mathlib.Core.Logic.{inl, inr}
use mathlib.Core.Option.{Option, none, some}
use mathlib.Core.List.{List, [], ◌∷◌}
use elinproxy.Prelude.Tests.{Option-cases}

module _ {A : Type 0} where
  -- The item at a place, and the others.
  unfoldable pub pick : ℕ → List A → Option (A × List A)
  pick n [] = none
  pick zero (c ∷ cs) = some (c, cs)
  pick (suc n) (c ∷ cs) = elim (pick n cs) [ none ↦ none | some (d, ds) ↦ some (d, c ∷ ds) ]

  abbrev pub AllOf : (A → Type 0) → List A → Type 0
  AllOf P [] = Unit {0}
  AllOf P (x ∷ xs) = P x × AllOf P xs

  after_pick : A → Option (A × List A) → Option (A × List A)
  after_pick x o = elim o [ none ↦ none | some (d, ds) ↦ some (d, x ∷ ds) ]

  no_pick :
      (x : A) {o : Option (A × List A)} {y : A × List A} → o ≡ none → after_pick x o ≡ some y → ⊥
  unfolding after_pick
  no_pick x gone e = let e' = sym (ap (after_pick x) gone) ∙ e in cc

  pick_step :
      (x : A) {o : Option (A × List A)} {d : A} {ds : List A} {y : A × List A}
      → o ≡ some (d, ds)
      → after_pick x o ≡ some y
      → some (d, x ∷ ds) ≡ some y
  unfolding after_pick
  pick_step x there e = sym (ap (after_pick x) there) ∙ e

  -- What holds of all items holds of the one that is handed out, and of those that are left.
  pub pick-AllOf :
      (P : A → Type 0) (n : ℕ) (xs : List A) (x : A) (rest : List A)
      → AllOf P xs
      → pick n xs ≡ some (x, rest)
      → P x × AllOf P rest
  unfolding pick after_pick
  pick-AllOf P n [] x rest h e = cc
  pick-AllOf P zero (y ∷ xs) x rest h e =
      let same : y ≡ x = cc in
      let left : xs ≡ rest = cc in (subst P same h.0, subst (AllOf P) left h.1)
  pick-AllOf P (suc n) (y ∷ xs) x rest h e = elim (Option-cases (pick n xs)) [
    | inl gone ↦ absurd (no_pick y gone e)
    | inr ((d, ds), there) ↦
        let (kept, others) = pick-AllOf P n xs d ds h.1 there in
        let e' = pick_step y there e in
        let same : d ≡ x = cc in
        let left : y ∷ ds ≡ rest = cc in (subst P same kept, subst (AllOf P) left (h.0, others))
  ]

-- The calls on a pool.
pub data Call (A : Type 0) : Type 0 where
  gets : ℕ → Call A
  puts : A → Call A

module _ {A : Type 0} (fresh : A) (cleared : A → Option A) where
  -- The pool that is left, and the item.
  unfoldable pub pool_get : ℕ → List A → List A × A
  unfolding pick
  pool_get place pool = elim (pick place pool) [ none ↦ (pool, fresh) | some (x, rest) ↦ (rest, x) ]

  unfoldable pub pool_put : A → List A → List A
  pool_put x pool = elim (cleared x) [ none ↦ pool | some y ↦ y ∷ pool ]

  unfoldable pub pool_run : List (Call A) → List A → List A
  unfolding pool_get pool_put
  pool_run [] pool = pool
  pool_run (gets place ∷ calls) pool = pool_run calls (pool_get place pool).0
  pool_run (puts x ∷ calls) pool = pool_run calls (pool_put x pool)

  module _ (P : A → Type 0) (new : P fresh) (clean : (x y : A) → cleared x ≡ some y → P y) where
    pool_get-AllOf :
        (place : ℕ) (pool : List A)
        → AllOf P pool
        → P (pool_get place pool).1 × AllOf P (pool_get place pool).0
    unfolding pool_get
    pool_get-AllOf place pool h = elim (Option-cases (pick place pool)) [
      | inl e ↦ rw (e, pool_get) (new, h)
      | inr ((x, rest), e) ↦ rw (e, pool_get) (pick-AllOf P place pool x rest h e)
    ]

    pool_put-AllOf : (x : A) (pool : List A) → AllOf P pool → AllOf P (pool_put x pool)
    unfolding pool_put
    pool_put-AllOf x pool h = elim (Option-cases (cleared x)) [
      | inl e ↦ rw (e, pool_put) h
      | inr (y, e) ↦ rw (e, pool_put) (clean x y e, h)
    ]

    pool_run-AllOf :
        (calls : List (Call A)) (pool : List A) → AllOf P pool → AllOf P (pool_run calls pool)
    unfolding pool_run
    pool_run-AllOf [] pool h = h
    pool_run-AllOf (gets place ∷ calls) pool h =
        pool_run-AllOf calls (pool_get place pool).0 (pool_get-AllOf place pool h).1
    pool_run-AllOf (puts x ∷ calls) pool h =
        pool_run-AllOf calls (pool_put x pool) (pool_put-AllOf x pool h)

    -- After any calls on an empty pool, what holds of a new item and of every cleared one holds of
    -- the item that is handed out.
    pub pool_get-run :
        (calls : List (Call A)) (place : ℕ) → P (pool_get place (pool_run calls [])).1
    pool_get-run calls place =
        (pool_get-AllOf place (pool_run calls []) (pool_run-AllOf calls [] tt)).0

-- A slice of bytes, by its length and capacity.
pub record Slice : Type 0 where
  pub len : ℕ
  pub cap : ℕ
