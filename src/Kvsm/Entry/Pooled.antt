-- ===== src/Kvsm/Entry/Pooled.antt =====
-- The pool of entries of lsm/kvsm/entry.go.
use elinproxy.Prelude.{ℕ, ◌≡◌, refl, ap, sym, Option, none, some, List, []}
use mathlib.Core.Option.{some-injective}
use elinproxy.Prelude.Pool.{Call, pool_get, pool_put, pool_run, pool_get-run}
use elinproxy.Kvsm.Entry.{Entry, null, put_value, put_entry}

module _ {V : Type 0} where
  -- &entry{}
  abbrev pub blank : Entry V
  blank = record { key = none; expire_at = 0; slot = none; prev = null; next = null }

  unfoldable pub cleared : Entry V → Option (Entry V)
  unfolding put_entry
  cleared e = some (put_entry e)

  -- newEntry
  unfoldable pub new_entry : Option V → ℕ → List (Entry V) → List (Entry V) × Entry V
  unfolding pool_get put_value
  new_entry v place pool =
      let (rest, e) = pool_get blank cleared place pool in (rest, put_value v e)

  -- putEntry
  unfoldable pub return_entry : Entry V → List (Entry V) → List (Entry V)
  unfolding pool_put cleared
  return_entry e pool = pool_put blank cleared e pool

  -- But for its value, an entry of the pool is blank.
  IsBlank : Entry V → Type 0
  IsBlank e = (v : Option V) → put_value v e ≡ put_value v blank

  cleared-IsBlank : (x y : Entry V) → cleared x ≡ some y → IsBlank y
  unfolding cleared put_entry IsBlank put_value
  cleared-IsBlank x y e v = ap (put_value v) (sym (some-injective (put_entry x) y e))

  -- After any calls of newEntry and putEntry from an empty pool, newEntry gives an entry with its
  -- value and no key, end or links.
  pub new_entry-run :
      (calls : List (Call (Entry V))) (place : ℕ) (v : Option V)
      → (new_entry v place (pool_run blank cleared calls [])).1 ≡ put_value v blank
  unfolding new_entry IsBlank
  new_entry-run calls place v =
      pool_get-run blank cleared IsBlank (λ w. refl) cleared-IsBlank calls place v
