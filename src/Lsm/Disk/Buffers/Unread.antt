-- ===== src/Lsm/Disk/Buffers/Unread.antt =====
-- GetHeader on buffers with unread bytes, and on headers that do not fit into a reader (lsm/pool.go).
use elinproxy.Prelude.{
  ℕ, suc, ◌+◌, ◌≤◌, ◌<◌, ◌≡◌, refl, true, false, Option, none, some, List, [], ◌∷◌, leb, ==_iff,
  length, arith, ◌∙◌,
}
use elinproxy.Lsm.File.{Bytes, Os, got, read_at}
use elinproxy.Lsm.Mem.{Header}
use elinproxy.Lsm.Disk.{ItemDisk}
use elinproxy.Prelude.Pool.{Slice, Call, pool_run, pool_get-run, pick}
use elinproxy.Lsm.Disk.Buffers.{
  ends, panics, InternalBytes, reset, get_header_internal_bytes, put_header_internal_bytes,
  reader_size, fill, Parser, read_mime_header, read_header, get_header, new_4k, get_4k, whole_4k,
}
use elinproxy.Lsm.Disk.Buffers.Clean.{AllClean, get-clean}

read_header-got :
    (fuel : ℕ) (os : Os) (parse : Parser) (file chunk : Bytes) (itd : ItemDisk) (i : InternalBytes)
    → read_at os file itd.off itd.head_size ≡ got chunk
    → length chunk ≡ itd.head_size
    → read_header fuel os parse file itd i ≡ read_mime_header fuel parse (record i { b = chunk })
unfolding read_header
read_header-got fuel os parse file chunk itd i read l =
    rw (read, read_header) (rw ((==_iff (length chunk) itd.head_size).1 l) refl)

mime_stale :
    (fuel : ℕ) (parse : Parser) (i : InternalBytes) (answer : Option Header) (rest : Bytes)
    → parse i.unread ≡ some (answer, rest)
    → read_mime_header (suc fuel) parse i ≡ ends (record i { unread = rest }, answer)
unfolding read_mime_header
mime_stale fuel parse i answer rest p = rw (p, read_mime_header) refl

fill_over : (i : InternalBytes) → i.unread ≡ [] → reader_size < i.size → fill i ≡ panics
unfolding fill
fill_over i e long =
    let full : leb (0 + i.size) reader_size ≡ false = ground arith in rw e (rw full refl)

mime_long :
    (fuel : ℕ) (parse : Parser) (i : InternalBytes)
    → parse [] ≡ none
    → i.unread ≡ []
    → reader_size < i.size
    → read_mime_header (suc fuel) parse i ≡ panics
unfolding read_mime_header
mime_long fuel parse i asks e long =
    let asked : parse i.unread ≡ none = rw e asks in
    rw (asked, read_mime_header) (rw (fill_over i e long) refl)

-- Where bytes of an earlier header are unread in the buffer that the pool hands out, and the parser
-- finds an answer in them, GetHeader gives this answer for every item whose header can be read and is
-- no longer than the room of the buffer.
pub get_header_stale :
    (fuel : ℕ) (os : Os) (parse : Parser) (file chunk rest : Bytes) (itd : ItemDisk)
    (i : InternalBytes) (pool : List InternalBytes) (answer : Option Header)
    → itd.head_size ≤ i.cap
    → read_at os file itd.off itd.head_size ≡ got chunk
    → length chunk ≡ itd.head_size
    → parse i.unread ≡ some (answer, rest)
    → get_header (suc fuel) os parse 0 file itd (i ∷ pool)
      ≡ ends (record i { size = itd.head_size; b = chunk; unread = rest } ∷ pool, answer)
unfolding get_header get_header_internal_bytes pick reset put_header_internal_bytes
get_header_stale fuel os parse file chunk rest itd i pool answer room read l p =
    let fits : leb itd.head_size i.cap ≡ true = ground arith in
    let j : InternalBytes = record i { size = itd.head_size } in
    rw fits (
      rw
        (read_header-got (suc fuel) os parse file chunk itd j read l
          ∙ mime_stale fuel parse (record j { b = chunk }) answer rest p)
        refl)

-- A header of more than 4096 bytes, which can be read, makes GetHeader panic, for any fuel of one or
-- more, whatever buffer without unread bytes the pool hands out, with a parser that asks for more where
-- it is given nothing.
pub get_header_long :
    (fuel : ℕ) (os : Os) (parse : Parser) (place : ℕ) (file chunk : Bytes) (itd : ItemDisk)
    (pool : List InternalBytes)
    → parse [] ≡ none
    → AllClean pool
    → read_at os file itd.off itd.head_size ≡ got chunk
    → length chunk ≡ itd.head_size
    → reader_size < itd.head_size
    → get_header (suc fuel) os parse place file itd pool ≡ panics
unfolding get_header
get_header_long fuel os parse place file chunk itd pool asks all read l long =
    let (rest, i) = get_header_internal_bytes place itd.head_size pool in
    let (others, e, size) = get-clean place itd.head_size pool all in
    rw
      (
        read_header-got (suc fuel) os parse file chunk itd i read l
            ∙ mime_long fuel parse (record i { b = chunk }) asks e (omega (arith, size)),
        get_header,
      )
      refl

whole_4k-new : (x y : Slice) → whole_4k x ≡ some y → y ≡ new_4k
unfolding whole_4k
whole_4k-new x y e = ground arith

-- After any calls of get4K and put4K from an empty pool, also with slices that were cut or come from
-- elsewhere, get4K gives a slice whose length and capacity are 4096.
pub get_4k-run :
    (calls : List (Call Slice)) (place : ℕ)
    → (get_4k place (pool_run new_4k whole_4k calls [])).1 ≡ new_4k
unfolding get_4k
get_4k-run = pool_get-run new_4k whole_4k (λ b. b ≡ new_4k) refl whole_4k-new
