-- ===== src/Lsm/Disk/Buffers/Tests.antt =====
-- Buffers of lsm/pool.go, with headers of one byte that a parser takes as they are.
use elinproxy.Prelude.{
  ℕ, zero, suc, ◌≡◌, refl, ap, none, some, List, [], ◌∷◌, if◌then◌else◌, ◌==◌, arith,
}
use elinproxy.Lsm.File.{Bytes, sound_os, read_at, got}
use elinproxy.Lsm.Log
use elinproxy.Lsm.Disk.{ItemDisk}
use elinproxy.Lsm.Disk.Buffers.{ends, panics, InternalBytes, Parser, get_header, get_headers}
use elinproxy.Lsm.Disk.Buffers.Clean.{IsWhole, AllClean, get_headers-map}
use elinproxy.Lsm.Disk.Buffers.Unread.{get_header_long}

abbrev one_byte : Parser
one_byte [] = none
one_byte (c ∷ rest) = some (if c == 0 then none else some ((c ∷ [], []) ∷ []), rest)

abbrev item_at : ℕ → ItemDisk
item_at off = record {
  key = 7;
  status_code = 200;
  off = off;
  head_size = 1;
  body_size = 0;
  hit = 0;
  in_use = 0;
}

abbrev file : Bytes
file = 65 ∷ 66 ∷ []

abbrev buffer : InternalBytes
buffer = record { size = 9; b = []; cap = 9; unread = [] }

-- Each item of one byte is whole.
item_at-IsWhole :
    (off c : ℕ)
    → read_at sound_os file off 1 ≡ got (c ∷ [])
    → IsWhole sound_os one_byte file (item_at off)
item_at-IsWhole off c r chunk r' l =
    let same : chunk ≡ c ∷ [] = cc in
    (omega arith, (if c == 0 then none else some ((c ∷ [], []) ∷ [])), ap one_byte same)

get_headers-map_example :
    (pool' : List InternalBytes) × (get_headers 2 sound_os one_byte
        ((0, file, item_at 0) ∷ (0, file, item_at 1) ∷ [])
        (buffer ∷ [])
      ≡ ends (pool', some ((65 ∷ [], []) ∷ []) ∷ some ((66 ∷ [], []) ∷ []) ∷ []))
    × AllClean pool'
unfolding read_at Log.get_header
get_headers-map_example =
    get_headers-map 0 sound_os one_byte refl ((0, file, item_at 0) ∷ (0, file, item_at 1) ∷ [])
      (buffer ∷ []) (refl, tt) (item_at-IsWhole 0 65 refl, (item_at-IsWhole 1 66 refl, tt))

abbrev many : ℕ → Bytes
many zero = []
many (suc n) = 1 ∷ many n

get_header_long_example :
    get_header 1 sound_os one_byte 0 (many 4097) (record (item_at 0) { head_size = 4097 }) []
    ≡ panics
unfolding read_at
get_header_long_example =
    get_header_long 0 sound_os one_byte 0 (many 4097) (many 4097)
      (record (item_at 0) { head_size = 4097 }) [] refl tt refl refl (omega arith)
