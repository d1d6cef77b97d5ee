-- ===== src/Lsm/Item.antt =====
-- The interface of items (lsm/item.go), as the handler uses it, and the two types that fill it. Write
-- is a method of items in memory only; the status, the hits and the count of uses are in the store's
-- objects, with GetStatusCode, GetHIT and Done.
use elinproxy.Prelude.{
  ◌∙◌, ℕ, ◌-◌, ◌+◌, ◌≤◌, ◌<◌, ◌≡◌, refl, ap, Bool, true, Option, none, some, List, [], arith,
  length, take, drop, length-take, length-drop, leb, lt→ltb,
}
use mathlib.Core.List.{flatten}
use elinproxy.Prelude.Int.{ℤ}
use elinproxy.Lsm.File.{Bytes, Os}
use elinproxy.Lsm.Range.{Result, Span, valid_range}
use elinproxy.Lsm.Mem
use elinproxy.Lsm.Mem.{ItemMem, Header}
use elinproxy.Lsm.Mem.Body.{content}
use elinproxy.Lsm.Mem.Ranges.{
  Ranged, wrong_range, beyond_length, out_of_fuel, failed, sent, len_content,
}
use elinproxy.Lsm.Mem.Ranges
use elinproxy.Lsm.Disk
use elinproxy.Lsm.Disk.{ItemDisk, Copy, done, mismatch}
use elinproxy.Lsm.Disk.Copying.{write_all_lem}
use elinproxy.Lsm.Disk.Copying
use elinproxy.Lsm.Log.{get_header}
use elinproxy.Lsm.Log.RoundTrip.{IsHealthy, write_to_pieces}

-- `get_header` is `none` for nil. What the writer is given is `none` where the call panics, does not
-- end or meets an error of the file in the middle of its copy.
pub record Item : Type 0 where
  pub get_header : Option Header
  pub len : ℕ
  pub valid_range : ℤ → ℤ → Result Span
  pub write_to : Option Bytes
  pub write_to_range : ℕ → ℕ → Option Bytes

-- What a writer was given, in one piece; where the file cannot be opened it was given nothing.
whole_of : List Bytes × Bool → Option Bytes
whole_of (bs, broken) = some (flatten bs)

ranged_of : Ranged → Option Bytes
ranged_of wrong_range = some []
ranged_of beyond_length = none
ranged_of Ranged.failed = none
ranged_of Ranged.out_of_fuel = none
ranged_of (sent n out) = some out

copied_of : Copy → Option Bytes
copied_of (done n out) = some out
copied_of (Copy.failed n out) = some out
copied_of (mismatch n out) = some out
copied_of Copy.out_of_fuel = none

copied_range_of : Option Copy → Option Bytes
unfolding copied_of
copied_range_of none = some []
copied_range_of (some c) = copied_of c

unfoldable pub item_mem : ℕ → Os → ItemMem → Item
unfolding whole_of ranged_of
item_mem fuel os itm = record {
  get_header = some itm.header;
  len = Mem.len os itm;
  valid_range = valid_range (Mem.len os itm);
  write_to = whole_of (Mem.write_to os itm);
  write_to_range = λ from to. ranged_of (Ranges.write_to_range fuel os itm from to);
}

unfoldable pub item_disk : ℕ → Os → (Bytes → Option Header) → Bytes → ItemDisk → Item
unfolding copied_of copied_range_of
item_disk fuel os parse file itd = record {
  get_header = get_header os parse file itd;
  len = itd.body_size;
  valid_range = valid_range itd.body_size;
  write_to = copied_of (Disk.write_all fuel os file itd);
  write_to_range = λ from to. copied_range_of (Disk.write_to_range fuel os file itd from to);
}

-- What an item promises: it holds a body, tells its length, gives it whole, gives any part, and
-- gives nothing for a part that ends before it begins.
pub record Holds (itm : Item) (header : Header) (body : Bytes) : Type 0 where
  pub header_kept : itm.get_header ≡ some header
  pub len_body : itm.len ≡ length body
  pub ranges : (s t : ℤ) → itm.valid_range s t ≡ valid_range (length body) s t
  pub gives_all : itm.write_to ≡ some body
  pub gives_part :
      (from to : ℕ)
      → from < to
      → to ≤ length body
      → itm.write_to_range from to ≡ some (take (to - from) (drop from body))
  pub gives_none : (from to : ℕ) → to < from → itm.write_to_range from to ≡ some []

mem_gives_all :
    (os : Os) (healthy : IsHealthy os) (itm : ItemMem)
    → whole_of (Mem.write_to os itm) ≡ some (content itm)
unfolding whole_of
mem_gives_all os healthy itm =
    let (ps, wrote, whole) = write_to_pieces os healthy 0 itm in ap whole_of wrote ∙ ap some whole

mem_gives_none :
    (fuel : ℕ) (os : Os) (itm : ItemMem) (from to : ℕ)
    → to < from
    → ranged_of (Ranges.write_to_range fuel os itm from to) ≡ some []
unfolding ranged_of Ranges.write_to_range
mem_gives_none fuel os itm from to behind =
    let g : leb to from ≡ true = ground arith in rw (g, Ranges.write_to_range) refl

disk_gives_none :
    (fuel : ℕ) (os : Os) (file : Bytes) (itd : ItemDisk) (from to : ℕ)
    → to < from
    → copied_range_of (Disk.write_to_range fuel os file itd from to) ≡ some []
unfolding copied_range_of Disk.write_to_range
disk_gives_none fuel os file itd from to behind =
    rw (lt→ltb to from behind, Disk.write_to_range) refl

-- An item in memory keeps the promise, in memory or in its temporary file, on a healthy system on
-- which Stat works, with fuel above its length.
pub item_mem-Holds :
    (os : Os) (healthy : IsHealthy os) (stats : os.stats ≡ true) (fuel : ℕ) (itm : ItemMem)
    → length (content itm) < fuel
    → Holds (item_mem fuel os itm) itm.header (content itm)
unfolding item_mem ranged_of
item_mem-Holds os healthy stats fuel itm enough = record {
  header_kept = refl;
  len_body = len_content os itm stats;
  ranges = λ s t. ap (λ n. valid_range n s t) (len_content os itm stats);
  gives_all = mem_gives_all os healthy itm;
  gives_part = λ from to ordered inside. ap ranged_of (
      Ranges.write_to_range_lem os itm fuel from to healthy.reads healthy.reopens stats
        (omega arith) ordered inside);
  gives_none = λ from to behind. mem_gives_none fuel os itm from to behind;
}

-- An item on disk keeps it, where its file holds it and reads do not fail, with fuel above its
-- length.
pub item_disk-Holds :
    (os : Os) (parse : Bytes → Option Header) (file : Bytes) (itd : ItemDisk) (header : Header)
    (fuel : ℕ)
    → ((off : ℕ) → os.read_fault off ≡ none)
    → get_header os parse file itd ≡ some header
    → itd.body_size < fuel
    → itd.off + itd.head_size + itd.body_size ≤ length file
    → Holds
        (item_disk fuel os parse file itd)
        header
        (take itd.body_size (drop (itd.off + itd.head_size) file))
unfolding item_disk copied_of copied_range_of
item_disk-Holds os parse file itd header fuel reads kept enough fits =
    let body = take itd.body_size (drop (itd.off + itd.head_size) file) in
    let size : itd.body_size ≡ length body = omega (
      arith,
      length-take itd.body_size (drop (itd.off + itd.head_size) file),
      length-drop (itd.off + itd.head_size) file,
    ) in
    record {
      header_kept = kept;
      len_body = size;
      ranges = λ s t. ap (λ n. valid_range n s t) size;
      gives_all = ap copied_of (write_all_lem os file itd reads fuel enough fits);
      gives_part = λ from to ordered inside. ap copied_range_of (
          Copying.write_to_range_lem os file itd reads fuel from to enough fits ordered
            (omega (arith, size)));
      gives_none = λ from to behind. disk_gives_none fuel os file itd from to behind;
    }
