-- ===== src/Lsm/Disk/Buffers.antt =====
-- lsm/pool.go: the pools of buffers that items on disk are read with, and GetHeader of
-- lsm/itemDisk.go on them. sync.Pool may hand out any of its buffers or none, so the place in the pool
-- is an argument. A negative length, which panics, is left out.
pub mod Clean
pub mod Unread
mod Tests
use elinproxy.Prelude.{
  ℕ, zero, suc, ◌+◌, Bool, true, false, Option, none, some, List, [], ◌∷◌, ◌++◌, if◌then◌else◌, leb,
  ◌==◌, length, take,
}
use elinproxy.Lsm.File.{Bytes, Os, got, broke, read_at}
use elinproxy.Lsm.Mem.{Header}
use elinproxy.Lsm.Disk.{ItemDisk, buffer_size}
use elinproxy.Prelude.Pool.{Slice, pick, pool_get, pool_put}

abbrev pub new_4k : Slice
new_4k = record { len = buffer_size; cap = buffer_size }

-- Only slices of that capacity go back, at their full length.
unfoldable pub whole_4k : Slice → Option Slice
whole_4k b = if b.cap == buffer_size then some (record b { len = b.cap }) else none

-- What the pool holds afterwards, and the buffer.
unfoldable pub get_4k : ℕ → List Slice → List Slice × Slice
unfolding pool_get
get_4k place pool = pool_get new_4k whole_4k place pool

unfoldable pub put_4k : Slice → List Slice → List Slice
unfolding pool_put whole_4k
put_4k b pool = pool_put new_4k whole_4k b pool

-- internalBytes. `unread` is what its bufio.Reader has read and not handed on, and `b` is the slice
-- of `size` bytes, whose array has room for `cap`.
pub record InternalBytes : Type 0 where
  pub size : ℕ
  pub b : Bytes
  pub cap : ℕ
  pub unread : Bytes

-- The bytes of a new slice, and those of one that is cut anew, are written over before they are read.
unfoldable pub new_internal_bytes : ℕ → InternalBytes
new_internal_bytes l = record { size = l; b = []; cap = l; unread = [] }

-- Reset
unfoldable pub reset : ℕ → InternalBytes → InternalBytes
reset l i =
    if leb l i.cap then record i { size = l } else record i { size = l; cap = l; unread = [] }

unfoldable pub get_header_internal_bytes :
    ℕ → ℕ → List InternalBytes → List InternalBytes × InternalBytes
unfolding pick reset new_internal_bytes
get_header_internal_bytes place l pool = elim (pick place pool) [
  | none ↦ (pool, new_internal_bytes l)
  | some (i, rest) ↦ (rest, reset l i)
]

unfoldable pub put_header_internal_bytes : InternalBytes → List InternalBytes → List InternalBytes
put_header_internal_bytes i pool = i ∷ pool

-- The buffer of a bufio.Reader.
abbrev pub reader_size : ℕ
reader_size = 4096

-- What a run comes to: a result, a panic, or no end within the fuel.
pub data Ending {ℓ} (A : Type ℓ) : Type ℓ where
  ends : A → Ending A
  panics runs_on : Ending A

infixl 5 ◌>>=◌
abbrev pub ◌>>=◌ {ℓ κ} : {A : Type ℓ} {B : Type κ} → Ending A → (A → Ending B) → Ending B
ends x >>= f = f x
panics >>= f = panics
runs_on >>= f = runs_on

-- The reader asks Read for more. Read copies what there is room for, and tells that it was all `size`
-- bytes; where there was less room the reader then cuts its buffer behind its end, which panics.
unfoldable pub fill : InternalBytes → Ending InternalBytes
fill i =
    if leb (length i.unread + i.size) reader_size
    then ends (record i { unread = i.unread ++ take i.size i.b })
    else panics

-- What ReadMIMEHeader makes of the bytes in the reader: `none` asks for more, and else there is the
-- header or an error, and the rest of the bytes.
abbrev pub Parser : Type 0
Parser = Bytes → Option (Option Header × Bytes)

-- It runs on where the parser asks for more as long as there is fuel.
unfoldable pub read_mime_header :
    ℕ → Parser → InternalBytes → Ending (InternalBytes × Option Header)
unfolding fill
read_mime_header zero parse i = runs_on
read_mime_header (suc fuel) parse i = elim (parse i.unread) [
  | some (answer, rest) ↦ ends (record i { unread = rest }, answer)
  | none ↦ (do j ← fill i; read_mime_header fuel parse j)
]

module _ (fuel : ℕ) (os : Os) (parse : Parser) where
  -- GetHeader between the pool's Get and Put.
  unfoldable pub read_header :
      Bytes → ItemDisk → InternalBytes → Ending (InternalBytes × Option Header)
  unfolding read_mime_header
  read_header file itd i = elim (read_at os file itd.off itd.head_size) [
    | broke n ↦ ends (i, none)
    | got chunk ↦
        if length chunk == itd.head_size
        then read_mime_header fuel parse (record i { b = chunk })
        else ends (i, none)
  ]

  -- GetHeader
  unfoldable pub get_header :
      ℕ → Bytes → ItemDisk → List InternalBytes → Ending (List InternalBytes × Option Header)
  unfolding get_header_internal_bytes read_header put_header_internal_bytes
  get_header place file itd pool = do
    let (rest, i) = get_header_internal_bytes place itd.head_size pool
    (j, answer) ← read_header file itd i
    ends (put_header_internal_bytes j rest, answer)

  -- One GetHeader after the other.
  unfoldable pub get_headers :
      List (ℕ × Bytes × ItemDisk)
      → List InternalBytes
      → Ending (List InternalBytes × List (Option Header))
  unfolding get_header
  get_headers [] pool = ends (pool, [])
  get_headers ((place, file, itd) ∷ items) pool = do
    (pool₁, answer) ← get_header place file itd pool
    (pool₂, answers) ← get_headers items pool₁
    ends (pool₂, answer ∷ answers)
