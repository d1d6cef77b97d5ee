-- ===== src/Lsm/Log.antt =====
-- `transform` of lsm/vlog.go: an item is written behind the others of its file, and its place there
-- becomes the item on disk. `http.Header.Write` is a parameter: the writes that it makes.
pub mod Channels
pub mod RoundTrip
pub mod Reader
use elinproxy.Prelude.{
  ℕ, ◌+◌, ◌-◌, ◌≡◌, refl, Bool, true, false, ◌||◌, Option, none, some, List, [], ◌∷◌, ◌++◌,
  if◌then◌else◌, length, ◌==◌,
}
use elinproxy.Lsm.File.{Bytes, Os, VFile, write_file, write_chunks, Read, got, broke, read_at}
use elinproxy.Lsm.Mem.{ItemMem, Header, write_to}
use elinproxy.Lsm.Disk.{ItemDisk}

-- ">>>>>!ELINPROXY\n"
abbrev pub end_record_mark : Bytes
end_record_mark = 62 ∷ 62 ∷ 62 ∷ 62 ∷ 62 ∷ 33 ∷ 69 ∷ 76 ∷ 73 ∷ 78 ∷ 80 ∷ 82 ∷ 79 ∷ 88 ∷ 89 ∷ 10 ∷ []

-- "\r\n"
abbrev pub new_line : Bytes
new_line = 13 ∷ 10 ∷ []

module _ (os : Os) (serialize : Header → List Bytes) (now : ℕ) where
  -- After the body: the size of the item is what the file grew by, and the record is closed.
  finish : VFile → ItemMem → ℕ → ℕ → VFile × Option ItemDisk
  finish w itm off head_size = (
    (write_file os now end_record_mark w).0,
    some (record {
      key = itm.key;
      status_code = itm.status_code;
      off = off;
      head_size = head_size;
      body_size = w.size - off - head_size;
      hit = itm.hit;
      in_use = 0;
    }),
  )

  write_body : VFile → ItemMem → ℕ → ℕ → VFile × Option ItemDisk
  unfolding finish
  write_body w itm off head_size =
      let (pieces, broken) = write_to os itm in
      let (w', (n, bad)) = write_chunks os now pieces w in
      if bad || broken then (w', none) else finish w' itm off head_size

  unfoldable pub transform : VFile → ItemMem → VFile × Option ItemDisk
  unfolding write_body
  transform w itm =
      let (w₁, (n, bad)) = write_chunks os now (serialize itm.header) w in
      let w₂ = (write_file os now new_line w₁).0 in
      if bad then (w₁, none) else write_body w₂ itm w.size (w₂.size - w.size)

-- ItemDisk.GetHeader; `parse` is textproto's ReadMIMEHeader, and `none` is nil. The buffers come
-- from a pool, as in Lsm/Disk/Buffers.
unfoldable pub get_header : Os → (Bytes → Option Header) → Bytes → ItemDisk → Option Header
get_header os parse file itd = elim (read_at os file itd.off itd.head_size) [
  | broke n ↦ none
  | got b ↦ if length b == itd.head_size then parse b else none
]
