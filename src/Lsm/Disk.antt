-- ===== src/Lsm/Disk.antt =====
-- lsm/itemDisk.go: an item in a file of the log. The buffer from the pool has its full capacity, as
-- Buffers/Unread shows.
-- Offsets and lengths count bytes of a file and are natural numbers here: a range comes from
-- `ValidRange`, whose start is not negative.
pub mod Buffers
pub mod Copying
pub mod Pooled
use elinproxy.Prelude.{
  ℕ, zero, suc, ◌+◌, ◌-◌, ◌≤◌, ◌<◌, ◌≡◌, refl, Bool, true, false, ◌&&◌, ◌||◌, Option, none, some,
  List, [], ◌∷◌, ◌++◌, arith, if◌then◌else◌, length, take, drop, ltb, ◌==◌, min,
}
use elinproxy.Lsm.File.{Bytes, Os, got, broke, read_at}

abbrev pub buffer_size : ℕ
buffer_size = 4096

pub record ItemDisk : Type 0 where
  pub key : ℕ
  pub status_code : ℕ
  pub off : ℕ
  pub head_size : ℕ
  pub body_size : ℕ
  pub hit : ℕ
  pub in_use : ℕ

-- How a copy to the writer ended: with all bytes, with an error of the read or the one that says
-- that the sizes do not agree, or not within the fuel. `out` is what the writer was given.
pub data Copy : Type 0 where
  done : ℕ → Bytes → Copy
  failed : ℕ → Bytes → Copy
  mismatch : ℕ → Bytes → Copy
  out_of_fuel : Copy

-- One round of the loop of `writeTo`, after the read of `chunk`. `ranged` is `from > 0 || to > 0`.
copy_round : ItemDisk → Bool → ℕ → (ℕ → ℕ → Bytes → Copy) → ℕ → ℕ → Bytes → Copy
copy_round itd ranged to rest last left out =
    if left == 0
    then done last out
    else if last == itd.body_size || (ranged && last == to)
    then done last out
    else if ltb itd.body_size last || (ranged && ltb to last)
    then mismatch last out
    else rest last left out

unfoldable pub copy_loop : ℕ → Os → Bytes → ItemDisk → Bool → ℕ → ℕ → ℕ → ℕ → Bytes → Copy
unfolding copy_round
copy_loop zero os file itd ranged to seek last left out = out_of_fuel
copy_loop (suc fuel) os file itd ranged to seek last left out =
    elim (read_at os file (seek + last) (min left buffer_size)) [
      | broke n ↦ failed n out
      | got chunk ↦
          copy_round itd ranged to (copy_loop fuel os file itd ranged to seek) (last + length chunk)
            (left - length chunk) (out ++ chunk)
    ]

abbrev pub is_ranged : ℕ → ℕ → Bool
is_ranged from to = ltb 0 from || ltb 0 to

-- writeTo
unfoldable pub write_to : ℕ → Os → Bytes → ItemDisk → ℕ → ℕ → Copy
unfolding copy_loop
write_to fuel os file itd from to =
    let ranged = is_ranged from to in
    let seek = itd.off + itd.head_size + (if ranged then from else 0) in
    let left = if ranged then to - from else itd.body_size in
    copy_loop fuel os file itd ranged to seek 0 left []

-- WriteTo: the count that it returns and what the writer was given
unfoldable pub write_all : ℕ → Os → Bytes → ItemDisk → Copy
unfolding write_to
write_all fuel os file itd = write_to fuel os file itd 0 0

-- WriteToRange; `none` is ErrWrongRange
unfoldable pub write_to_range : ℕ → Os → Bytes → ItemDisk → ℕ → ℕ → Option Copy
unfolding write_to
write_to_range fuel os file itd from to =
    if ltb to from then none else some (write_to fuel os file itd from to)

-- Bytes
unfoldable pub bytes : ℕ → Os → Bytes → ItemDisk → Option Bytes
unfolding write_to
bytes fuel os file itd = elim (write_to fuel os file itd 0 0) [ done n out ↦ some out | _ ↦ none ]
