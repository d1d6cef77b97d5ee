-- ===== src/Lsm/Mem.antt =====
-- lsm/itemMem.go: an item in memory, whose body moves to a temporary file when it grows large.
pub mod Body
pub mod Ranges
use elinproxy.Prelude.{
  ℕ, ◌+◌, ◌-◌, ◌*◌, ◌%◌, ◌≡◌, ◌<◌, refl, Bool, true, false, Option, none, some, List, [], ◌∷◌, ◌++◌,
  if◌then◌else◌, length, take, ltb, ◌==◌,
}
use elinproxy.Kvsm.Store.{int64_mod}
use elinproxy.Lsm.File.{Bytes, Os, Written, append_file}

-- http.Header
abbrev pub Header : Type 0
Header = List (Bytes × List Bytes)

-- `in_use` is the bit pattern of the int64. `w` is what the temporary file holds, if there is one.
pub record ItemMem : Type 0 where
  pub key : ℕ
  pub status_code : ℕ
  pub header : Header
  pub body : Bytes
  pub hit : ℕ
  pub in_use : ℕ
  pub written : ℕ
  pub w : Option Bytes

-- itemMemLimitForTempFile
abbrev pub temp_file_limit : ℕ
temp_file_limit = 4 * 1024 * 1024

-- A write returns its count and whether it failed.
abbrev pub Outcome : Type 0
Outcome = ItemMem × (ℕ × Bool)

append_memory : Bytes → ItemMem → Outcome
append_memory b itm = (record itm { body = itm.body ++ b }, (length b, false))

-- What is in memory and then `b` go to a new temporary file.
spill : Os → Bytes → ItemMem → Outcome
unfolding append_file
spill os b itm =
    let r = append_file os [] itm.body in
    let r' = append_file os r.content b in
    if r.failed
    then (record itm { w = some r.content }, (0, true))
    else (record itm { body = []; w = some r'.content }, (r'.count, r'.failed))

append_temp : Os → Bytes → Bytes → ItemMem → Outcome
unfolding append_file
append_temp os b content itm =
    let r = append_file os content b in
    (
      record itm {
        w = some r.content;
        written = if r.failed then itm.written else itm.written + length b;
      },
      (r.count, r.failed),
    )

-- Write
unfoldable pub write : Os → Bytes → ItemMem → Outcome
unfolding append_memory spill append_temp
write os b itm = elim itm.w [
  | some content ↦ append_temp os b content itm
  | none ↦
      if ltb temp_file_limit (length b + length itm.body)
      then (if os.temp_created then spill os b itm else append_memory b itm)
      else append_memory b itm
]

-- Bytes; nil where the temporary file cannot be opened again
unfoldable pub bytes : Os → ItemMem → Bytes
bytes os itm = elim itm.w [ none ↦ itm.body | some content ↦ if os.reopens then content else [] ]

-- Len
unfoldable pub len : Os → ItemMem → ℕ
len os itm = elim itm.w [
  | none ↦ length itm.body
  | some content ↦ if os.stats then length content else 0
]

-- io.Copy of a temporary file, whose reads count as one read of all of it: the writes, and whether a
-- read failed behind them.
unfoldable pub copy_out : Os → Bytes → List Bytes × Bool
copy_out os content = elim (os.read_fault 0) [
  | none ↦ (os.chunks content, false)
  | some n ↦ (os.chunks (take n content), true)
]

-- WriteTo: the writes that the writer sees, and whether there was an error other than its own
unfoldable pub write_to : Os → ItemMem → List Bytes × Bool
unfolding copy_out
write_to os itm = elim itm.w [
  | none ↦ (itm.body ∷ [], false)
  | some content ↦ if os.reopens then copy_out os content else ([], true)
]

-- Done
unfoldable pub release : ItemMem → ItemMem
release itm = record itm { in_use = (itm.in_use + int64_mod - 1) % int64_mod }

-- Close
unfoldable pub close : ItemMem → ItemMem
close itm = record itm { w = none }
