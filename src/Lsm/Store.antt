-- ===== src/Lsm/Store.antt =====
-- lsm/lsm.go: the store, on the table of lsm/kvsm, and the items' way back to their pools. The
-- table holds pointers to items; `objects` is what they point to, without the bodies.
pub mod Overwritten
pub mod Replaced
pub mod Spared
pub mod Schedule
pub mod Starts
pub mod Use
use elinproxy.Prelude.{
  ℕ, ◌+◌, ◌-◌, ◌%◌, Bool, true, false, Option, none, some, List, [], ◌∷◌, ◌++◌, if◌then◌else◌, ltb,
  ◌==◌, length, ◌>>=◌,
}
use elinproxy.Kvsm.Entry.{Ptr, update}
use elinproxy.Kvsm.Store
use elinproxy.Kvsm.Store.{Kvsm, Found, int64_mod}

-- An ItemMem or an ItemDisk. `in_use` is the bit pattern of the int64, `hit` the uint64, and
-- `pooled` tells that the item was handed to its pool.
pub record Object : Type 0 where
  pub key : ℕ
  pub status_code : ℕ
  pub hit : ℕ
  pub in_use : ℕ
  pub pooled : Bool

abbrev pub retry_eviction_size : ℕ
retry_eviction_size = 1024

-- `logged` lists what vlog.Set was given.
pub record Lsm : Type 0 where
  pub min_lsm_ttl : ℕ
  pub mem : Kvsm Ptr
  pub objects : Ptr → Object
  pub retry_eviction_ch : List Ptr
  pub logged : List (Ptr × ℕ)

-- putItemMem and putItemDisk, on the fields that are here. An item with a large buffer goes to
-- no pool, which makes no difference to its fields.
unfoldable pub put_item : Object → Object
put_item o = record o { key = 0; status_code = 0; hit = 0; in_use = 0; pooled = true }

abbrev pub set_object : Ptr → Object → Lsm → Lsm
set_object p o c = record c { objects = λ q. if q == p then o else c.objects q }

-- onEvictInternal: the result is what `inUse` held. A value that is no item is logged only.
unfoldable pub on_evict_internal : Option Ptr → Lsm → Lsm × ℕ
unfolding put_item
on_evict_internal none c = (c, 0)
on_evict_internal (some p) c =
    let n = (c.objects p).in_use in
    (
      (if n == 0
          then set_object p (put_item (c.objects p)) c
          else if ltb (length c.retry_eviction_ch) retry_eviction_size
          then record c { retry_eviction_ch = c.retry_eviction_ch ++ p ∷ [] }
          else c),
      n,
    )

-- One round of retryEviction, but for its sleep
unfoldable pub retry_eviction : Lsm → Lsm
unfolding on_evict_internal
retry_eviction c = elim c.retry_eviction_ch [
  | [] ↦ c
  | p ∷ ps ↦ (on_evict_internal (some p) (record c { retry_eviction_ch = ps })).0
]

-- The calls of onEvicted that a step of the table has made.
unfoldable pub evict_all : List (Option Ptr) → Lsm → Lsm
unfolding on_evict_internal
evict_all [] c = c
evict_all (x ∷ xs) c = evict_all xs (on_evict_internal x c).0

-- The table after a step, whose calls of onEvicted are made.
unfoldable pub with_mem : Kvsm Ptr → Lsm → Lsm
unfolding evict_all
with_mem m c = evict_all m.evicted (record c { mem = record m { evicted = [] } })

-- afterWrite; `e` is the entry that the pool of the table hands out
unfoldable pub after_write : Ptr → Ptr → ℕ → ℕ → Lsm → Option Lsm
unfolding with_mem
after_write e p ttl now c = do
  m ← Store.swap e (c.objects p).key (some p) ttl now c.mem
  some (with_mem m c)

-- Set takes the key from the item.
unfoldable pub set : Ptr → Ptr → ℕ → ℕ → Lsm → Lsm
set e p ttl now c =
    let c' = record c { mem = Store.set e (c.objects p).key (some p) ttl now c.mem } in
    if ltb c.min_lsm_ttl ttl then record c' { logged = c.logged ++ (p, ttl) ∷ [] } else c'

-- An item that is handed out counts one use and one hit more.
unfoldable pub hand_out : Object → Object
hand_out o = record o { in_use = (o.in_use + 1) % int64_mod; hit = (o.hit + 1) % int64_mod }

-- `none` is ErrItemNotFound.
unfoldable pub found_item : Found Ptr → Lsm → Lsm × Option (Ptr × Bool)
unfolding hand_out
found_item f c = elim f.value [
  | none ↦ (c, none)
  | some p ↦
      if f.ok then (set_object p (hand_out (c.objects p)) c, some (p, f.is_expired)) else (c, none)
]

-- Get; the outer `none` is a panic of the table
unfoldable pub get : ℕ → ℕ → Lsm → Option (Lsm × Option (Ptr × Bool))
unfolding found_item
get now key c = do f ← Store.get now key c.mem; some (found_item f c)

-- Delete
unfoldable pub delete : ℕ → Lsm → Lsm
delete key c = record c { mem = Store.remove_by_key key c.mem }

-- Done
unfoldable pub done : Ptr → Lsm → Lsm
done p c =
    set_object p
      (record (c.objects p) { in_use = ((c.objects p).in_use + int64_mod - 1) % int64_mod }) c
