-- ===== src/Lsm/Pools.antt =====
-- The pools of items in memory by the size of their buffers (lsm/item.go). A pool holds the
-- capacities of its items, whose other fields are cleared; sync.Pool may hand out any of them or
-- none, so the place in the pool is an argument. A negative length, which panics, is left out.
pub mod Classes
use elinproxy.Prelude.{
  ℕ, zero, suc, ◌+◌, ◌*◌, ◌/◌, ◌%◌, Option, none, some, List, [], ◌∷◌, if◌then◌else◌, leb, ltb,
  ◌==◌, min,
}
use elinproxy.Prelude.Pool.{pick}

abbrev pub item_mem_min_size : ℕ
item_mem_min_size = 1024

abbrev pub item_mem_max_size : ℕ
item_mem_max_size = 5 * 1024 * 1024

-- `init` makes one pool for each kilobyte.
abbrev pub pool_count : ℕ
pool_count = item_mem_max_size / item_mem_min_size

abbrev pub Pools : Type 0
Pools = ℕ → List ℕ

unfoldable pub calc_index : ℕ → ℕ
calc_index l = l / item_mem_min_size % pool_count

abbrev pub replace : ℕ → List ℕ → Pools → Pools
replace i cs pools = λ j. if j == i then cs else pools j

-- getItemLen: the pools, and the capacity of the item that is handed out
unfoldable pub get_item_len : ℕ → ℕ → Pools → Pools × ℕ
unfolding calc_index pick
get_item_len place l pools =
    let size = min l item_mem_max_size in
    let i = calc_index size in
    elim (pick place (pools i)) [ none ↦ (pools, size) | some (c, cs) ↦ (replace i cs pools, c) ]

-- putItemMem, with the capacity of the item
unfoldable pub put_item_mem : ℕ → Pools → Pools
unfolding calc_index
put_item_mem c pools =
    if leb c item_mem_min_size
    then replace 0 (c ∷ pools 0) pools
    else if leb c item_mem_max_size
    then replace (calc_index c) (c ∷ pools (calc_index c)) pools
    else pools
