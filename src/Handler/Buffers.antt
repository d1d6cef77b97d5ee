-- ===== src/Handler/Buffers.antt =====
-- httpsrv/handler/pool.go: the pool of buffers that ReverseProxy copies bodies with.
use elinproxy.Prelude.{
  ℕ, ◌*◌, ◌<◌, ◌≡◌, refl, arith, Option, none, some, List, [], if◌then◌else◌, leb,
}
use elinproxy.Prelude.Pool.{Slice, Call, pool_get, pool_put, pool_run, pool_get-run}

abbrev pub default_min_pool_byte_size : ℕ
default_min_pool_byte_size = 128

abbrev pub default_max_pool_byte_size : ℕ
default_max_pool_byte_size = 1024 * 1024

abbrev pub small : Slice
small = record { len = 0; cap = default_min_pool_byte_size }

-- A slice that is too large is dropped, and any other one is emptied.
unfoldable pub emptied : Slice → Option Slice
emptied b = if leb default_max_pool_byte_size b.cap then none else some (record b { len = 0 })

-- Get
unfoldable pub get : ℕ → List Slice → List Slice × Slice
unfolding pool_get
get place pool = pool_get small emptied place pool

-- Put
unfoldable pub put : Slice → List Slice → List Slice
unfolding pool_put emptied
put b pool = pool_put small emptied b pool

IsEmpty : Slice → Type 0
IsEmpty b = (b.len ≡ 0) × (b.cap < default_max_pool_byte_size)

emptied-IsEmpty : (x y : Slice) → emptied x ≡ some y → IsEmpty y
unfolding emptied IsEmpty
emptied-IsEmpty x y e = ground arith

-- After any calls of Get and Put from an empty pool, Get gives an empty slice with a capacity below
-- one megabyte.
pub get-run :
    (calls : List (Call Slice)) (place : ℕ)
    → let b = (get place (pool_run small emptied calls [])).1 in
      (b.len ≡ 0) × (b.cap < default_max_pool_byte_size)
unfolding get IsEmpty
get-run = pool_get-run small emptied IsEmpty (refl, omega arith) emptied-IsEmpty
