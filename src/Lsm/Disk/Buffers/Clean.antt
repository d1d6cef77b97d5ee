-- ===== src/Lsm/Disk/Buffers/Clean.antt =====
-- GetHeader on buffers from the pool of lsm/pool.go, against GetHeader on a buffer of its own.
use elinproxy.Prelude.{
  ℕ, zero, suc, ◌+◌, ◌≤◌, ◌≡◌, refl, sym, ap, ◌∙◌, true, Option, none, some, List, [], ◌∷◌, leb,
  ◌==◌, length, take, map, arith, Bool-cases, Option-cases, inl, inr, ◌⊎◌, ==_iff,
}
use elinproxy.Lsm.File.{Bytes, Os, Read, got, broke, read_at}
use elinproxy.Lsm.Mem.{Header}
use elinproxy.Lsm.Disk.{ItemDisk}
use elinproxy.Lsm.Log
use elinproxy.Prelude.Pool.{AllOf, pick, pick-AllOf}
use elinproxy.Lsm.Disk.Buffers.{
  ends, InternalBytes, new_internal_bytes, reset, get_header_internal_bytes,
  put_header_internal_bytes, reader_size, fill, Parser, read_mime_header, read_header, get_header,
  get_headers,
}

-- What a parser makes of all the bytes of a header.
abbrev pub whole : Parser → Bytes → Option Header
whole parse b = elim (parse b) [ none ↦ none | some (answer, rest) ↦ answer ]

-- If the header of an item can be read, it fits into a reader, and the parser comes to its end.
abbrev pub IsWhole : Os → Parser → Bytes → ItemDisk → Type 0
IsWhole os parse file itd =
    (chunk : Bytes)
    → read_at os file itd.off itd.head_size ≡ got chunk
    → length chunk ≡ itd.head_size
    → (itd.head_size ≤ reader_size) × (answer : Option Header) × (parse chunk ≡ some (answer, []))

take-whole : (b : Bytes) (n : ℕ) → length b ≡ n → take n b ≡ b
take-whole [] zero e = refl
take-whole [] (suc n) e = refl
take-whole (x ∷ b) zero e = absurd (omega (arith, e))
take-whole (x ∷ b) (suc n) e = ap (◌∷◌ x) (take-whole b n (omega (arith, e)))

fill-empty :
    (i : InternalBytes)
    → i.unread ≡ []
    → length i.b ≡ i.size
    → i.size ≤ reader_size
    → fill i ≡ ends (record i { unread = i.b })
unfolding fill
fill-empty i e l small =
    let room : leb (0 + i.size) reader_size ≡ true = ground arith in
    rw e (rw room (ap (λ b. ends (record i { unread = b })) (take-whole i.b i.size l)))

read_mime_header-whole :
    (fuel : ℕ) (parse : Parser) (i : InternalBytes) (answer : Option Header)
    → parse [] ≡ none
    → i.unread ≡ []
    → length i.b ≡ i.size
    → i.size ≤ reader_size
    → parse i.b ≡ some (answer, [])
    → read_mime_header (suc (suc fuel)) parse i ≡ ends (record i { unread = [] }, answer)
unfolding read_mime_header
read_mime_header-whole fuel parse i answer asks e l small p =
    rw (e, read_mime_header)
      (rw (asks, read_mime_header)
        (rw (fill-empty i e l small, read_mime_header) (rw (p, read_mime_header) refl)))

whole-all :
    (parse : Parser) (b : Bytes) (answer : Option Header)
    → parse b ≡ some (answer, [])
    → whole parse b ≡ answer
whole-all parse b answer p = rw (p, whole) refl

Read-cases : (r : Read) → ((n : ℕ) × (r ≡ broke n)) ⊎ ((chunk : Bytes) × (r ≡ got chunk))
Read-cases (broke n) = inl (n, refl)
Read-cases (got chunk) = inr (chunk, refl)

module _ (fuel : ℕ) (os : Os) (parse : Parser) (asks : parse [] ≡ none) where
  -- A buffer with nothing unread gives what GetHeader would read with a buffer of its own, and is
  -- left with nothing unread.
  read_header-clean :
      (file : Bytes) (itd : ItemDisk) (i : InternalBytes)
      → i.unread ≡ []
      → i.size ≡ itd.head_size
      → IsWhole os parse file itd
      → (j : InternalBytes) × (read_header (suc (suc fuel)) os parse file itd i
          ≡ ends (j, Log.get_header os (whole parse) file itd))
        × (j.unread ≡ [])
  unfolding read_header Log.get_header
  read_header-clean file itd i e size fits =
      elim (Read-cases (read_at os file itd.off itd.head_size)) [
        | inl (n, r) ↦ (i, rw (r, read_header) (rw (r, Log.get_header) refl), e)
        | inr (chunk, r) ↦ elim (Bool-cases (length chunk == itd.head_size)) [
          | inr f ↦ (i, rw (r, read_header) (rw f (rw (r, Log.get_header) (rw f refl))), e)
          | inl t ↦
              let l : length chunk ≡ itd.head_size = (==_iff (length chunk) itd.head_size).0 t in
              let (small, answer, p) = fits chunk r l in
              let j : InternalBytes = record i { b = chunk; unread = [] } in
              let done =
                read_mime_header-whole fuel parse (record i { b = chunk }) answer asks e
                  (l ∙ sym size) (omega (arith, size)) p in
              let own : Log.get_header os (whole parse) file itd ≡ answer =
                rw (r, Log.get_header) (rw t (whole-all parse chunk answer p)) in
              (j, rw (r, read_header) (rw t (done ∙ ap (λ h. ends (j, h)) (sym own))), refl)
        ]
      ]

-- No buffer of the pool has unread bytes.
abbrev pub AllClean : List InternalBytes → Type 0
AllClean = AllOf (λ i. i.unread ≡ [])

reset-clean :
    (l : ℕ) (i : InternalBytes) → i.unread ≡ [] → ((reset l i).unread ≡ []) × ((reset l i).size ≡ l)
unfolding reset
reset-clean l i e = elim (Bool-cases (leb l i.cap)) [
  | inl t ↦ rw t (e, refl)
  | inr f ↦ rw f (refl, refl)
]

new-clean : (l : ℕ) → ((new_internal_bytes l).unread ≡ []) × ((new_internal_bytes l).size ≡ l)
unfolding new_internal_bytes
new-clean l = (refl, refl)

-- A pool with no unread bytes hands out a buffer without any, cut to the length that is asked for.
pub get-clean :
    (place l : ℕ) (pool : List InternalBytes)
    → AllClean pool
    → let (rest, i) = get_header_internal_bytes place l pool in
      AllClean rest × (i.unread ≡ []) × (i.size ≡ l)
unfolding get_header_internal_bytes
get-clean place l pool all = elim (Option-cases (pick place pool)) [
  | inl e ↦ rw (e, get_header_internal_bytes) (all, (new-clean l).0, (new-clean l).1)
  | inr ((i, rest), e) ↦
      let (one, others) = pick-AllOf (λ j. j.unread ≡ []) place pool i rest all e in
      rw (e, get_header_internal_bytes) (others, (reset-clean l i one).0, (reset-clean l i one).1)
]

-- Of an item, its place in the pool and its file: what GetHeader reads with a buffer of its own.
abbrev pub own_header : Os → Parser → ℕ × Bytes × ItemDisk → Option Header
own_header os parse (place, file, itd) = Log.get_header os (whole parse) file itd

abbrev pub AllWhole : Os → Parser → List (ℕ × Bytes × ItemDisk) → Type 0
AllWhole os parse [] = Unit {0}
AllWhole os parse ((place, file, itd) ∷ items) = IsWhole os parse file itd × AllWhole os parse items

module _ (fuel : ℕ) (os : Os) (parse : Parser) (asks : parse [] ≡ none) where
  get_header-clean :
      (place : ℕ) (file : Bytes) (itd : ItemDisk) (pool : List InternalBytes)
      → AllClean pool
      → IsWhole os parse file itd
      → (pool' : List InternalBytes) × (get_header (suc (suc fuel)) os parse place file itd pool
          ≡ ends (pool', Log.get_header os (whole parse) file itd))
        × AllClean pool'
  unfolding get_header put_header_internal_bytes
  get_header-clean place file itd pool all fits =
      let (rest, i) = get_header_internal_bytes place itd.head_size pool in
      let (others, e, size) = get-clean place itd.head_size pool all in
      let (j, read, clean) = read_header-clean fuel os parse asks file itd i e size fits in
      (j ∷ rest, rw (read, get_header) refl, (clean, others))

  -- From a pool whose buffers have nothing unread, any number of calls of GetHeader end, give what
  -- they would with buffers of their own, and leave such a pool. This is for items each of whose
  -- headers, if it can be read, has 4096 bytes at most and is parsed to its end, with a parser that
  -- asks for more where it is given nothing.
  pub get_headers-map :
      (items : List (ℕ × Bytes × ItemDisk)) (pool : List InternalBytes)
      → AllClean pool
      → AllWhole os parse items
      → (pool' : List InternalBytes) × (get_headers (suc (suc fuel)) os parse items pool
          ≡ ends (pool', map (own_header os parse) items))
        × AllClean pool'
  unfolding get_headers
  get_headers-map [] pool all fits = (pool, refl, all)
  get_headers-map ((place, file, itd) ∷ items) pool all (fits, more) =
      let (pool₁, one, all₁) = get_header-clean place file itd pool all fits in
      let (pool₂, others, all₂) = get_headers-map items pool₁ all₁ more in
      (pool₂, rw (one, get_headers) (rw (others, get_headers) refl), all₂)
