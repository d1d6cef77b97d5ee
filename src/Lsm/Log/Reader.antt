-- ===== src/Lsm/Log/Reader.antt =====
-- `reader` of lsm/vlog.go: what the goroutine of one TTL does with an item that it receives.
use elinproxy.Prelude.{
  ℕ, zero, suc, ◌*◌, ◌≡◌, ap, false, Option, none, some, List, if◌then◌else◌, ltb,
}
use elinproxy.Lsm.File.{Bytes, Os, VFile, new_file, file_expired}
use elinproxy.Lsm.Mem.{ItemMem, Header}
use elinproxy.Lsm.Disk.{ItemDisk}
use elinproxy.Lsm.Log.{transform}
use elinproxy.Lsm.Log.RoundTrip.{IsHealthy, Stored, transform-Stored}

abbrev pub max_file_size : ℕ
max_file_size = 1000 * 1024 * 1024

module _ (os : Os) (serialize : Header → List Bytes) (now ttl : ℕ) where
  -- The tries that are left: a failed one begins a new file. The item on disk goes to afterWrite.
  unfoldable pub attempt : ℕ → VFile → ItemMem → VFile × Option ItemDisk
  attempt zero w itm = (w, none)
  attempt (suc n) w itm =
      let (w', written) = transform os serialize now w itm in
      elim written [ some itd ↦ (w', some itd) | none ↦ attempt n (new_file ttl now) itm ]

  -- The file that the next item goes to, and the item on disk, if one was written
  unfoldable pub reader_round : VFile → ItemMem → VFile × Option ItemDisk
  unfolding attempt
  reader_round w itm =
      let start = if file_expired w now then new_file ttl now else w in
      let (w', written) = attempt 3 start itm in
      (if ltb max_file_size w'.size then new_file ttl now else w', written)

  -- A try that succeeds is the last one.
  attempt_ok :
      (n : ℕ) (w w' : VFile) (itm : ItemMem) (itd : ItemDisk)
      → transform os serialize now w itm ≡ (w', some itd)
      → attempt (suc n) w itm ≡ (w', some itd)
  unfolding attempt
  attempt_ok n w w' itm itd e =
      ap {B = VFile × Option ItemDisk}
        (λ r. elim r.1 [ some d ↦ (r.0, some d) | none ↦ attempt n (new_file ttl now) itm ]) e

  rotate : VFile × Option ItemDisk → VFile × Option ItemDisk
  rotate (w, written) = (if ltb max_file_size w.size then new_file ttl now else w, written)

  round_ok :
      (w w' : VFile) (itm : ItemMem) (itd : ItemDisk)
      → file_expired w now ≡ false
      → transform os serialize now w itm ≡ (w', some itd)
      → reader_round w itm ≡ (if ltb max_file_size w'.size then new_file ttl now else w', some itd)
  unfolding reader_round rotate
  round_ok w w' itm itd open_file e =
      rw (open_file, reader_round) (ap rotate (attempt_ok 2 w w' itm itd e))

-- On a healthy system an item that comes before its file has expired is logged to that file at the
-- first try, and handed on. A file that has grown beyond the limit is followed by a new one.
reader_round-Stored :
    (os : Os) (healthy : IsHealthy os) (now ttl : ℕ) (serialize : Header → List Bytes) (w : VFile)
    (itm : ItemMem)
    → file_expired w now ≡ false
    → (w' : VFile) × (itd : ItemDisk) × Stored os healthy now serialize w itm w' itd
      × (reader_round os serialize now ttl w itm
          ≡ (if ltb max_file_size w'.size then new_file ttl now else w', some itd))
reader_round-Stored os healthy now ttl serialize w itm open_file =
    let (w', itd, s) = transform-Stored os healthy now serialize w itm in
    (w', itd, s, round_ok os serialize now ttl w w' itm itd open_file s.returns)
