-- ===== src/Lsm/Range.antt =====
-- `ValidRange` of lsm/itemMem.go and lsm/itemDisk.go, which are the same text: the part of an item
-- that a request for bytes `req_start` to `req_end`, both included, is given.
use elinproxy.Prelude.{ℕ, ◌+◌, ◌-◌, ◌≤◌, ◌<◌, ◌≡◌, ◌&&◌, arith, if◌then◌else◌, min}
use elinproxy.Prelude.Int.{ℤ, pos, negsuc, ◌+ℤ◌, ◌-ℤ◌, ltb_ℤ, leb_ℤ, eqb_ℤ, wrap64, int64_max}

-- The bytes from `from` up to `to`, which is not included.
pub record Span : Type 0 where
  pub from : ℤ
  pub to : ℤ
  pub length : ℤ

-- `wrong_range` is ErrWrongRange, `bad_read` ErrReadingItemDisk and `io_error` an error of the
-- operating system.
pub data Error : Type 0 where
  wrong_range bad_read io_error immutable not_found : Error

pub data Result (A : Type 0) : Type 0 where
  ok : A → Result A
  err : Error → Result A

-- `if reqEnd >= itmLen { reqEnd = itmLen } else { reqEnd++ }`
unfoldable pub end_of : ℤ → ℤ → ℤ
unfolding wrap64 ◌+ℤ◌
end_of itm_len req_end = if leb_ℤ itm_len req_end then itm_len else wrap64 (req_end +ℤ pos 1)

span_to : ℤ → ℤ → ℤ → Result Span
unfolding wrap64 ◌-ℤ◌
span_to itm_len from to =
    if eqb_ℤ from (pos 0) && eqb_ℤ to (pos 0)
    then ok (record { from = pos 0; to = itm_len; length = itm_len })
    else let length = wrap64 (to -ℤ from) in
      if eqb_ℤ length (pos 0)
      then err wrong_range
      else ok (record { from = from; to = to; length = length })

unfoldable pub valid_range : ℕ → ℤ → ℤ → Result Span
unfolding end_of span_to
valid_range itm_len req_start req_end =
    if ltb_ℤ req_start (pos 0)
    then err wrong_range
    else span_to (pos itm_len) req_start (end_of (pos itm_len) req_end)

-- A request that begins inside the item and does not end before it begins is given the bytes that
-- it names, cut at the end of the item: never more than the item has, and never none.
pub valid_range_sound :
    (len s t : ℕ)
    → len < int64_max
    → s < len
    → s ≤ t
    → valid_range len (pos s) (pos t)
      ≡ ok (record { from = pos s; to = pos (min (t + 1) len); length = pos (min (t + 1) len - s) })
unfolding valid_range
valid_range_sound len s t fits inside ordered = ground arith

-- A request that begins behind its own end, or behind the end of the item, is not refused: it is
-- given a span of negative length.
pub valid_range_inverted :
    (len s t : ℕ)
    → len < int64_max
    → s < int64_max
    → min (t + 1) len < s
    → valid_range len (pos s) (pos t)
      ≡ ok (record {
        from = pos s;
        to = pos (min (t + 1) len);
        length = negsuc (s - min (t + 1) len - 1);
      })
unfolding valid_range
valid_range_inverted len s t fits small behind = ground arith
