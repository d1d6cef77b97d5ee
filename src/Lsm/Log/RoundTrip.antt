-- ===== src/Lsm/Log/RoundTrip.antt =====
-- From memory to the log's file and back (lsm/vlog.go, lsm/itemDisk.go).
use elinproxy.Prelude.{
  ℕ, ◌+◌, ◌-◌, ◌≤◌, ◌<◌, ◌≡◌, refl, sym, ap, ◌∙◌, subst, true, false, Option, none, some, List, [],
  ◌∷◌, ◌++◌, length, take, drop, take-length, drop-length, ==_self, arith, inl, inr, Option-cases,
  length-append,
}
use mathlib.Core.List.{append_assoc, append-nil, flatten}
use elinproxy.Lsm.File.{Bytes, Os, sound_os, VFile, write_file, write_chunks, read_at}
use elinproxy.Lsm.Mem.{ItemMem, Header, write_to, copy_out}
use elinproxy.Lsm.Mem.Body.{content}
use elinproxy.Lsm.Disk.{ItemDisk, done, write_all}
use elinproxy.Lsm.Disk.Copying.{write_all_lem}
use elinproxy.Lsm.Log.{transform, write_body, get_header, new_line, end_record_mark}

-- A system on which no call fails, and on which io.Copy writes what it read.
pub record IsHealthy (os : Os) : Type 0 where
  pub writes : (c b : Bytes) → os.write_fault c b ≡ none
  pub reads : (off : ℕ) → os.read_fault off ≡ none
  pub reopens : os.reopens ≡ true
  pub copies : (b : Bytes) → flatten (os.chunks b) ≡ b

pub sound_os-IsHealthy : IsHealthy sound_os
unfolding flatten
sound_os-IsHealthy = record {
  writes = λ c b. refl;
  reads = λ off. refl;
  reopens = refl;
  copies = λ b. append-nil b;
}

-- `g` is `f` with `b` behind it.
pub record Appended (f g : VFile) (b : Bytes) : Type 0 where
  pub content : g.content ≡ f.content ++ b
  pub size : g.size ≡ f.size + length b

Appended-trans :
    {f g h : VFile} {b c : Bytes} → Appended f g b → Appended g h c → Appended f h (b ++ c)
Appended-trans {f} {b} {c} p q = record {
  content = q.content ∙ ap (λ x. x ++ c) p.content ∙ append_assoc f.content b c;
  size = omega (arith, p.size, q.size, length-append b c);
}

module _ (os : Os) (healthy : IsHealthy os) (now : ℕ) where
  write_file-Appended :
      (b : Bytes) (f : VFile)
      → Appended f (write_file os now b f).0 b × ((write_file os now b f).1.failed ≡ false)
  unfolding write_file
  write_file-Appended b f =
      let h = healthy.writes f.content b in
      (record { content = ground arith; size = ground arith }, ground arith)

  write_chunks-Appended :
      (bs : List Bytes) (f : VFile)
      → Appended f (write_chunks os now bs f).0 (flatten bs)
        × ((write_chunks os now bs f).1.1 ≡ false)
  unfolding write_chunks flatten
  write_chunks-Appended [] f =
      (record { content = sym (append-nil f.content); size = omega arith }, refl)
  write_chunks-Appended (b ∷ bs) f =
      let first = write_file-Appended b f in
      let rest = write_chunks-Appended bs (write_file os now b f).0 in
      rw first.1 (Appended-trans first.0 rest.0, rest.1)

  pub write_to_pieces :
      (itm : ItemMem)
      → (ps : List Bytes) × (write_to os itm ≡ (ps, false)) × (flatten ps ≡ content itm)
  unfolding write_to copy_out flatten
  write_to_pieces itm = elim (Option-cases itm.w) [
    | inl e ↦ (itm.body ∷ [], rw (e, write_to) refl, rw (e, content) (append-nil itm.body))
    | inr (c, e) ↦ (
      os.chunks c,
      rw (e, write_to) (rw (healthy.reopens, write_to) (rw (healthy.reads 0, write_to) refl)),
      healthy.copies c ∙ sym (ap (λ o. elim o [ none ↦ itm.body | some d ↦ d ]) e),
    )
  ]

  module _ (serialize : Header → List Bytes) (w : VFile) (itm : ItemMem) where
    abbrev head : Bytes
    head = flatten (serialize itm.header) ++ new_line

    -- What `transform` promises on a healthy system.
    pub record Stored (w' : VFile) (itd : ItemDisk) : Type 0 where
      pub returns : transform os serialize now w itm ≡ (w', some itd)
      pub appended : Appended w w' (head ++ content itm ++ end_record_mark)
      pub key : itd.key ≡ itm.key
      pub status_code : itd.status_code ≡ itm.status_code
      pub off : itd.off ≡ w.size
      pub head_size : itd.head_size ≡ length head
      pub body_size : itd.body_size ≡ length (content itm)

    -- On a healthy system `transform` returns an item on disk with the key and the status of the
    -- item in memory, its place in the file and the sizes of its header and body, and the file
    -- holds header, body and record mark behind what it held.
    pub transform-Stored : (w' : VFile) × (itd : ItemDisk) × Stored w' itd
    unfolding transform
    transform-Stored =
        let (ps, sent, whole) = write_to_pieces itm in
        let (a₁, ok₁) = write_chunks-Appended (serialize itm.header) w in
        let w₁ = (write_chunks os now (serialize itm.header) w).0 in
        let (a₂, ok₂) = write_file-Appended new_line w₁ in
        let w₂ = (write_file os now new_line w₁).0 in
        let (a₃, ok₃) = write_chunks-Appended ps w₂ in
        let w₃ = (write_chunks os now ps w₂).0 in
        let (a₄, ok₄) = write_file-Appended end_record_mark w₃ in
        let w₄ = (write_file os now end_record_mark w₃).0 in
        let h = Appended-trans a₁ a₂ in
        (
          w₄,
          record {
            key = itm.key;
            status_code = itm.status_code;
            off = w.size;
            head_size = w₂.size - w.size;
            body_size = w₃.size - w.size - (w₂.size - w.size);
            hit = itm.hit;
            in_use = 0;
          },
          record {
            returns = rw ok₁ (rw (sent, write_body) (rw ok₃ refl));
            appended =
                subst (λ c. Appended w w₄ (head ++ c ++ end_record_mark)) whole
                  (Appended-trans (Appended-trans h a₃) a₄);
            key = refl;
            status_code = refl;
            off = refl;
            head_size = omega (arith, h.size);
            body_size = omega (arith, h.size, a₃.size, ap length whole);
          },
        )

copied : {m n : ℕ} {a b : Bytes} → m ≡ n → a ≡ b → done m a ≡ done n b
copied p q = rw (p, q) refl

get_header_lem :
    (os : Os) (parse : Bytes → Option Header) (file b : Bytes) (itd : ItemDisk)
    → os.read_fault itd.off ≡ none
    → take itd.head_size (drop itd.off file) ≡ b
    → itd.head_size ≡ length b
    → get_header os parse file itd ≡ parse b
unfolding get_header read_at
get_header_lem os parse file b itd ok at len =
    rw (ok, get_header, read_at) (rw (at, len, ==_self (length b)) refl)

regroup : (p h c m r : Bytes) → p ++ (h ++ c ++ m) ++ r ≡ (p ++ h) ++ c ++ (m ++ r)
regroup p h c m r = simp append_assoc

-- The bytes `b` that stand in a file behind `a`.
slice : (a b c : Bytes) → take (length b) (drop (length a) (a ++ b ++ c)) ≡ b
slice a b c =
    ap (λ x. take (length b) (drop (length a) x)) (append_assoc a b c)
    ∙ ap (take (length b)) (drop-length a (b ++ c))
    ∙ take-length b c

length-at :
    {n : ℕ} (a b c : Bytes) {x : Bytes} → n ≡ length a → x ≡ a ++ b ++ c → n + length b ≤ length x
length-at a b c len e = omega (arith, len, ap length e, length-append (a ++ b) c, length-append a b)

slice_at :
    {n k : ℕ} (a b c : Bytes) {x : Bytes}
    → n ≡ length a
    → k ≡ length b
    → x ≡ a ++ b ++ c
    → take k (drop n x) ≡ b
slice_at a b c len len' e = rw (len, len', e) (slice a b c)

module _ (os : Os) (healthy : IsHealthy os) (now fuel : ℕ) (serialize : Header → List Bytes)
    (parse : Bytes → Option Header) (w : VFile) (itm : ItemMem)
    (agree : parse (flatten (serialize itm.header) ++ new_line) ≡ some itm.header)
    (all_written : w.size ≡ length w.content) (enough : length (content itm) < fuel)
    (more : Bytes) where
  -- What a later reader of the log's file gets of the item, whatever was written behind it.
  pub record Reads (w' : VFile) (itd : ItemDisk) : Type 0 where
    pub returns : transform os serialize now w itm ≡ (w', some itd)
    pub body :
        write_all fuel os (w'.content ++ more) itd ≡ done (length (content itm)) (content itm)
    pub header : get_header os parse (w'.content ++ more) itd ≡ some itm.header
    pub place :
        take itd.body_size (drop (itd.off + itd.head_size) (w'.content ++ more)) ≡ content itm
    pub fits : itd.off + itd.head_size + itd.body_size ≤ length (w'.content ++ more)
    pub key : itd.key ≡ itm.key
    pub status_code : itd.status_code ≡ itm.status_code
    pub body_size : itd.body_size ≡ length (content itm)

  body_at :
      {w' : VFile} {itd : ItemDisk}
      → Stored os healthy now serialize w itm w' itd
      → w'.content ++ more
        ≡ (w.content ++ (flatten (serialize itm.header) ++ new_line))
          ++ content itm
          ++ (end_record_mark ++ more)
  body_at s = rw s.appended.content (
      regroup w.content (flatten (serialize itm.header) ++ new_line) (content itm) end_record_mark
        more)

  -- On a healthy system, and with a file whose size counts all that it holds, the item that
  -- `transform` returns gives back the body on WriteTo and the header on GetHeader, also after more
  -- was written behind it. The fuel is above the length of the body, and the parser reads what the
  -- serializer wrote for this header.
  pub transform-write_all : (w' : VFile) × (itd : ItemDisk) × Reads w' itd
  transform-write_all =
      let h = flatten (serialize itm.header) ++ new_line in
      let (w', itd, s) = transform-Stored os healthy now serialize w itm in
      let at = body_at s in
      let start : itd.off + itd.head_size ≡ length (w.content ++ h) =
        omega (arith, s.off, s.head_size, all_written, length-append w.content h) in
      let tail = end_record_mark ++ more in
      let fits : itd.off + itd.head_size + itd.body_size ≤ length (w'.content ++ more) =
        omega (arith, s.body_size, length-at (w.content ++ h) (content itm) tail start at) in
      let place = slice_at (w.content ++ h) (content itm) tail start s.body_size at in
      (
        w',
        itd,
        record {
          returns = s.returns;
          body =
              write_all_lem os (w'.content ++ more) itd healthy.reads fuel
                (omega (arith, s.body_size)) fits
              ∙ copied s.body_size place;
          header =
              let x = w'.content ++ more in
              let rest = content itm ++ tail in
              let there =
                slice_at w.content h rest (s.off ∙ all_written) s.head_size
                  (at ∙ append_assoc (w.content ++ h) (content itm) tail) in
              get_header_lem os parse x h itd (healthy.reads itd.off) there s.head_size ∙ agree;
          place = place;
          fits = fits;
          key = s.key;
          status_code = s.status_code;
          body_size = s.body_size;
        },
      )
