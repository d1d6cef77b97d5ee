-- ===== src/Lsm/Tests.antt =====
-- An item whose body comes in two writes, logged behind other bytes of a file and read again.
use elinproxy.Prelude.{false, ◌≡◌, refl, ◌/◌, ◌<◌, Option, none, some, List, [], ◌∷◌, arith}
use elinproxy.Lsm.File.{Bytes, sound_os, VFile}
use elinproxy.Lsm.Mem.{ItemMem, Header}
use elinproxy.Lsm.Disk.{ItemDisk, out_of_fuel, write_all}
use elinproxy.Lsm.Disk.Copying.{write_all_stuck}
use elinproxy.Lsm.Item.{Holds, item_mem, item_disk, item_mem-Holds, item_disk-Holds}
use elinproxy.Lsm.Log.{get_header}
use elinproxy.Lsm.Store.{with_mem, retry_eviction}
use elinproxy.Lsm.Store.Schedule.{
  Used, Counted, IsKept, then_step, stop, retries, table, Steps-IsKept,
}
use elinproxy.Kvsm.Store
use elinproxy.Kvsm.Store.{set_on_evicted}
use elinproxy.Kvsm.Store.{new}
use elinproxy.Lsm.Log.Channels
use elinproxy.Lsm.Log.Channels.{Channel, Channels, BySeconds, Queued, set-Queued}
use elinproxy.Prelude.Assoc.{lookup}
use elinproxy.Lsm.Pools.{get_item_len}
use elinproxy.Lsm.Pools.Classes.{put_item, run as run_calls, no_items, get_item_len-run}
use elinproxy.Lsm.File.{read_at}
use elinproxy.Lsm.File.Closing.{expire, wakes, opened, run, IsOrderly, run-opened-IsOrderly}
use elinproxy.Kvsm.Entry.{Ptr, Entry}
use elinproxy.Kvsm.Store.{new}
use elinproxy.Lsm.Store.{Lsm}
use elinproxy.Lsm.Log.RoundTrip.{sound_os-IsHealthy, Reads, transform-write_all}

abbrev page : ItemMem
page = record {
  key = 7;
  status_code = 200;
  header = [];
  body = 104 ∷ 105 ∷ [];
  hit = 0;
  in_use = 0;
  written = 0;
  w = none;
}

abbrev log_file : VFile
log_file = record { content = 1 ∷ 2 ∷ 3 ∷ []; size = 3; ttl = 60; expire_at = 60 }

-- A header that is always written in the same two pieces.
abbrev two_pieces : Header → List Bytes
two_pieces h = (65 ∷ []) ∷ (58 ∷ []) ∷ []

abbrev on_disk : ItemDisk
on_disk = record {
  key = 7;
  status_code = 200;
  off = 1;
  head_size = 2;
  body_size = 3;
  hit = 0;
  in_use = 0;
}

abbrev whole_file : Bytes
whole_file = 0 ∷ 1 ∷ 2 ∷ 10 ∷ 11 ∷ 12 ∷ 13 ∷ []

write_all_stuck_example : write_all 1000 sound_os (0 ∷ 1 ∷ 2 ∷ 10 ∷ []) on_disk ≡ out_of_fuel
write_all_stuck_example =
    write_all_stuck sound_os (0 ∷ 1 ∷ 2 ∷ 10 ∷ []) on_disk (λ off. refl) 1000 (omega arith)
      (omega arith)

-- It knows the one header that the item has.
abbrev known : Bytes → Option Header
known b = some []

transform-write_all_example :
    (w' : VFile) × (itd : ItemDisk) × Reads sound_os sound_os-IsHealthy 0 10 two_pieces known
      log_file page refl refl
      (omega arith)
      (9 ∷ [])
      w'
      itd
transform-write_all_example =
    transform-write_all sound_os sound_os-IsHealthy 0 10 two_pieces known log_file page refl refl
      (omega arith) (9 ∷ [])

-- A store with an empty table and one item, at 5.
abbrev free_entry : Entry Ptr
free_entry = record { key = none; expire_at = 0; slot = none; prev = 0; next = 0 }

abbrev one_item : Lsm
one_item = record {
  min_lsm_ttl = 60;
  mem = new (λ a. free_entry);
  objects = λ p. record { key = 7; status_code = 200; hit = 0; in_use = 0; pooled = false };
  retry_eviction_ch = [];
  logged = [];
}

item_mem-Holds_example : Holds (item_mem 10 sound_os page) [] (104 ∷ 105 ∷ [])
item_mem-Holds_example = item_mem-Holds sound_os sound_os-IsHealthy refl 10 page (omega arith)

on_disk_header : get_header sound_os known whole_file on_disk ≡ some []
unfolding get_header read_at
on_disk_header = refl

item_disk-Holds_example :
    Holds (item_disk 4 sound_os known whole_file on_disk) [] (10 ∷ 11 ∷ 12 ∷ [])
item_disk-Holds_example =
    item_disk-Holds sound_os known whole_file on_disk [] 4 (λ off. refl) on_disk_header
      (omega arith) (omega arith)

run-opened-IsOrderly_example :
    let h = run (expire ∷ wakes ∷ expire ∷ []) opened in
    IsOrderly h × (h.auto_expire ≡ 2) × (h.writer ≡ false) × (h.reader ≡ false)
run-opened-IsOrderly_example = run-opened-IsOrderly (expire ∷ wakes ∷ expire ∷ []) (omega arith)

get_item_len-run_example :
    (get_item_len 0 5000 (run_calls (put_item 4096 ∷ put_item 100 ∷ []) no_items)).1 / 1024 ≡ 4
get_item_len-run_example =
    get_item_len-run (put_item 4096 ∷ put_item 100 ∷ []) 0 5000 (omega arith) (omega arith)

-- One channel, for a TTL of 60.5 seconds.
abbrev one_channel : Channels
one_channel = (60, record { ttl = 60500000000; waiting = 5 ∷ [] }) ∷ []

one_channel-BySeconds : BySeconds one_channel
unfolding lookup
one_channel-BySeconds s ch found = ground arith

set-Queued_example :
    (ch : Channel) × Queued 6 60000000000 one_channel (Channels.set 6 60000000000 one_channel) ch
    × BySeconds (Channels.set 6 60000000000 one_channel)
set-Queued_example = set-Queued 6 60000000000 one_channel one_channel-BySeconds

-- Every item has one use that is not given back; a retry, and then an eviction of the item at 5.
abbrev one_use : Used
one_use = record {
  store = record one_item {
    objects = λ p. record { key = 7; status_code = 200; hit = 1; in_use = 1; pooled = false };
  };
  held = λ p. 1;
}

Steps-IsKept_example :
    let w = record one_use {
      store =
          with_mem (record one_item.mem { evicted = some 5 ∷ [] }) (retry_eviction one_use.store);
    } in
    Counted w
    × ((p : Ptr)
        → 0 < one_use.held p
        → IsKept ((retry_eviction one_use.store).objects p) (w.store.objects p))
Steps-IsKept_example =
    Steps-IsKept (λ p. (refl, omega arith)) (then_step stop retries)
      (table (record one_item.mem { evicted = some 5 ∷ [] }))

-- The item at 5 was set under the key 7 while the one at 8, which had been there, was logged.
abbrev set_twice : Lsm
set_twice = record one_item {
  mem = set_on_evicted (Store.set 1 7 (some 5) 70 10 (new (λ a. free_entry)));
  logged = (8, 70) ∷ (5, 70) ∷ [];
}
