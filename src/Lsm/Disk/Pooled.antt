-- ===== src/Lsm/Disk/Pooled.antt =====
-- The pool of items on disk, and the methods of lsm/itemDisk.go that only look at an item.
use elinproxy.Prelude.{ℕ, Bool, true, ◌≡◌, refl, sym, Option, some, List, []}
use mathlib.Core.Option.{some-injective}
use elinproxy.Prelude.Pool.{Call, pool_get, pool_put, pool_run, pool_get-run}
use elinproxy.Lsm.File.{Bytes}
use elinproxy.Lsm.Disk.{ItemDisk}

-- &ItemDisk{}; its file is nil.
abbrev pub blank : ItemDisk
blank = record {
  key = 0;
  status_code = 0;
  off = 0;
  head_size = 0;
  body_size = 0;
  hit = 0;
  in_use = 0;
}

unfoldable pub cleared : ItemDisk → Option ItemDisk
cleared v = some (record v {
  body_size = 0;
  hit = 0;
  head_size = 0;
  key = 0;
  off = 0;
  status_code = 0;
  in_use = 0;
})

-- getItemDisk
unfoldable pub get_item_disk : ℕ → List ItemDisk → List ItemDisk × ItemDisk
unfolding pool_get
get_item_disk place pool = pool_get blank cleared place pool

-- putItemDisk
unfoldable pub put_item_disk : ItemDisk → List ItemDisk → List ItemDisk
unfolding pool_put cleared
put_item_disk v pool = pool_put blank cleared v pool

-- GetStatusCode
unfoldable pub get_status_code : ItemDisk → ℕ
get_status_code itd = itd.status_code

-- GetHIT
unfoldable pub get_hit : ItemDisk → ℕ
get_hit itd = itd.hit

-- Len
unfoldable pub len : ItemDisk → ℕ
len itd = itd.body_size

-- Write takes nothing and always fails, with ErrItemDiskWrite; the Boolean tells that it did.
unfoldable pub write : Bytes → ItemDisk → ℕ × Bool
write b itd = (0, true)

cleared-blank : (x y : ItemDisk) → cleared x ≡ some y → y ≡ blank
unfolding cleared
cleared-blank x y e = sym (some-injective blank y e)

-- After any calls of getItemDisk and putItemDisk from an empty pool, getItemDisk gives an item whose
-- fields are all zero.
pub get_item_disk-run :
    (calls : List (Call ItemDisk)) (place : ℕ)
    → (get_item_disk place (pool_run blank cleared calls [])).1 ≡ blank
unfolding get_item_disk
get_item_disk-run = pool_get-run blank cleared (λ v. v ≡ blank) refl cleared-blank
