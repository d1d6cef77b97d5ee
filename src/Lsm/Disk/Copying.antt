-- ===== src/Lsm/Disk/Copying.antt =====
-- The loop of `writeTo` (lsm/itemDisk.go), on a file that is long enough and on one that is not.
use elinproxy.Prelude.{
  ℕ, zero, suc, ◌+◌, ◌-◌, ◌≤◌, ◌<◌, ◌≡◌, refl, sym, ap, ◌∙◌, Bool, true, false, ◌||◌, none, some,
  [], ◌++◌, arith, length, take, drop, ltb, min, length-take, length-drop, take-drop-take,
  take-drop-take_within, drop-drop,
}
use native.Mathlib.Decide.{dec_le}
use mathlib.Core.List.{append_assoc}
use elinproxy.Lsm.File.{Bytes, Os, got, read_at}
use elinproxy.Lsm.Disk.{
  ItemDisk, Copy, done, out_of_fuel, copy_round, copy_loop, write_to, write_all, write_to_range,
  buffer_size,
}

-- The round sees `left` bytes left and `last` copied, none of them beyond the item or the range.
abbrev Within : ItemDisk → Bool → ℕ → ℕ → ℕ → Type 0
Within itd ranged to last left = (last + left ≤ itd.body_size) × (ranged ≡ true → last + left ≤ to)

copy_round-done :
    (itd : ItemDisk) (ranged : Bool) (to : ℕ) (rest : ℕ → ℕ → Bytes → Copy) (last : ℕ) (out : Bytes)
    → copy_round itd ranged to rest last 0 out ≡ done last out
unfolding copy_round
copy_round-done itd ranged to rest last out = refl

copy_round_more :
    (itd : ItemDisk) (ranged : Bool) (to : ℕ) (rest : ℕ → ℕ → Bytes → Copy) (last left : ℕ)
    (out : Bytes)
    → 0 < left
    → Within itd ranged to last left
    → copy_round itd ranged to rest last left out ≡ rest last left out
unfolding copy_round
copy_round_more itd false to rest last left out more w = ground arith
copy_round_more itd true to rest last left out more w = ground (arith, w.1 refl)

module _ (os : Os) (file : Bytes) (itd : ItemDisk) (ranged : Bool) (to seek : ℕ)
    (sound : (off : ℕ) → os.read_fault off ≡ none) where
  abbrev chunk : ℕ → ℕ → Bytes
  chunk last left = take (min left buffer_size) (drop (seek + last) file)

  read_got : (off len : ℕ) → read_at os file off len ≡ got (take len (drop off file))
  unfolding read_at
  read_got off len = rw (sound off, read_at) refl

  copy_step :
      (fuel last left : ℕ) (out : Bytes)
      → copy_loop (suc fuel) os file itd ranged to seek last left out
        ≡ copy_round itd ranged to
            (copy_loop fuel os file itd ranged to seek)
            (last + length (chunk last left))
            (left - length (chunk last left))
            (out ++ chunk last left)
  unfolding copy_loop
  copy_step fuel last left out = rw (read_got (seek + last) (min left buffer_size), copy_loop) refl

  length-chunk :
      (last left : ℕ)
      → length (chunk last left) ≡ min (min left buffer_size) (length file - (seek + last))
  length-chunk last left =
      length-take (min left buffer_size) (drop (seek + last) file)
      ∙ ap (min (min left buffer_size)) (length-drop (seek + last) file)

  -- A file that is too short keeps the loop going: at its end every read gives nothing.
  copy_loop_stuck :
      (fuel last left : ℕ) (out : Bytes)
      → length file < seek + last + left
      → 0 < left
      → Within itd ranged to last left
      → copy_loop fuel os file itd ranged to seek last left out ≡ out_of_fuel
  unfolding copy_loop
  copy_loop_stuck zero last left out short more w = refl
  copy_loop_stuck (suc fuel) last left out short more w =
      let c = length-chunk last left in
      copy_step fuel last left out
      ∙ copy_round_more itd ranged to (copy_loop fuel os file itd ranged to seek)
          (last + length (chunk last left)) (left - length (chunk last left))
          (out ++ chunk last left) (omega arith) (omega arith, λ r. omega (arith, w.1 r))
      ∙ copy_loop_stuck fuel (last + length (chunk last left)) (left - length (chunk last left))
          (out ++ chunk last left) (omega arith) (omega arith)
          (omega arith, λ r. omega (arith, w.1 r))

  -- The chunk and the rest behind it make up what is left.
  join_chunks :
      (m last left : ℕ)
      → m ≤ left
      → take m (drop (seek + last) file) ++ take (left - m) (drop (seek + (last + m)) file)
        ≡ take left (drop (seek + last) file)
  join_chunks m last left le =
      ap (λ ys. take m (drop (seek + last) file) ++ take (left - m) ys)
        (ap (λ k. drop k file) (omega arith) ∙ sym (drop-drop (seek + last) m file))
      ∙ take-drop-take m (left - m) (drop (seek + last) file)
      ∙ ap (λ k. take k (drop (seek + last) file)) (omega arith)

  -- One round and what follows it, for the last chunk and for one before it.
  module _ (rest : ℕ → ℕ → Bytes → Copy) (last left : ℕ) (out : Bytes)
      (fits : seek + last + left ≤ length file) where
    abbrev after_chunk : Copy
    after_chunk =
        copy_round itd ranged to rest (last + length (chunk last left))
          (left - length (chunk last left)) (out ++ chunk last left)

    abbrev copied : Copy
    copied = done (last + left) (out ++ take left (drop (seek + last) file))

    chunk_full : length (chunk last left) ≡ min left buffer_size
    chunk_full = omega (arith, length-chunk last left)

    last_chunk : left ≤ buffer_size → after_chunk ≡ copied
    last_chunk small =
        let all_left : min left buffer_size ≡ left = omega arith in
        let len : length (chunk last left) ≡ left = omega (arith, chunk_full) in
        ap (λ n. copy_round itd ranged to rest (last + n) (left - n) (out ++ chunk last left)) len
        ∙ ap (λ n. copy_round itd ranged to rest (last + left) n (out ++ chunk last left))
            (omega arith)
        ∙ copy_round-done itd ranged to rest (last + left) (out ++ chunk last left)
        ∙ ap (λ n. done (last + left) (out ++ take n (drop (seek + last) file))) all_left

    more_chunks :
        ¬ (left ≤ buffer_size)
        → Within itd ranged to last left
        → (let n = length (chunk last left) in
            rest (last + n) (left - n) (out ++ chunk last left)
            ≡ done
                (last + n + (left - n))
                ((out ++ chunk last left) ++ take (left - n) (drop (seek + (last + n)) file)))
        → after_chunk ≡ copied
    more_chunks large w ih =
        let c = chunk_full in
        let n = length (chunk last left) in
        copy_round_more itd ranged to rest (last + n) (left - n) (out ++ chunk last left)
          (omega arith) (omega arith, λ r. omega (arith, w.1 r))
        ∙ ih
        ∙ ap
            (λ m.
              done m ((out ++ chunk last left) ++ take (left - n) (drop (seek + (last + n)) file)))
            (omega arith)
        ∙ ap (done (last + left)) (
            append_assoc out (chunk last left) (take (left - n) (drop (seek + (last + n)) file))
            ∙ ap (◌++◌ out) (
                ap (λ m. chunk last left ++ take (left - m) (drop (seek + (last + m)) file)) c
                ∙ join_chunks (min left buffer_size) last left (omega arith)))

  -- With enough fuel, and a file that holds what is left, the loop copies exactly that.
  copy_loop_lem :
      (fuel last left : ℕ) (out : Bytes)
      → left < fuel
      → seek + last + left ≤ length file
      → Within itd ranged to last left
      → copy_loop fuel os file itd ranged to seek last left out
        ≡ done (last + left) (out ++ take left (drop (seek + last) file))
  copy_loop_lem zero last left out enough fits w = absurd (omega arith)
  copy_loop_lem (suc fuel) last left out enough fits w =
      let rest = copy_loop fuel os file itd ranged to seek in
      let n = length (chunk last left) in
      let c = chunk_full rest last left out fits in
      copy_step fuel last left out ∙ elim (dec_le left buffer_size) [
        | yes small ↦ last_chunk rest last left out fits small
        | no large ↦ more_chunks rest last left out fits large w (
            copy_loop_lem fuel (last + n) (left - n) (out ++ chunk last left) (omega arith)
              (omega arith) (omega arith, λ r. omega (arith, w.1 r)))
      ]

not_behind : (from to : ℕ) → from < to → ltb to from ≡ false
not_behind from to h = ground arith

some_bytes : (from to : ℕ) → from < to → (ltb 0 from || ltb 0 to) ≡ true
some_bytes from to h = ground arith

module _ (os : Os) (file : Bytes) (itd : ItemDisk)
    (sound : (off : ℕ) → os.read_fault off ≡ none) where
  -- WriteTo of an item whose file holds it copies the body, and reports its size.
  pub write_all_lem :
      (fuel : ℕ)
      → itd.body_size < fuel
      → itd.off + itd.head_size + itd.body_size ≤ length file
      → write_all fuel os file itd
        ≡ done itd.body_size (take itd.body_size (drop (itd.off + itd.head_size) file))
  unfolding write_all write_to
  write_all_lem fuel enough fits =
      copy_loop_lem os file itd false 0 (itd.off + itd.head_size + 0) sound fuel 0 itd.body_size []
        enough (omega arith) (omega arith, λ r. cc)
      ∙ ap (λ k. done (0 + itd.body_size) (take itd.body_size (drop k file))) (omega arith)
      ∙ ap (λ k. done k (take itd.body_size (drop (itd.off + itd.head_size) file))) (omega arith)

  -- WriteToRange of a span inside the item copies the bytes of that span, for every item whose file
  -- holds it.
  pub write_to_range_lem :
      (fuel from to : ℕ)
      → itd.body_size < fuel
      → itd.off + itd.head_size + itd.body_size ≤ length file
      → from < to
      → to ≤ itd.body_size
      → write_to_range fuel os file itd from to
        ≡ some (
            done (to - from) (
              take
                (to - from)
                (drop from (take itd.body_size (drop (itd.off + itd.head_size) file)))))
  unfolding write_to_range write_to
  write_to_range_lem fuel from to enough fits ordered inside =
      let base = itd.off + itd.head_size in
      rw (not_behind from to ordered, some_bytes from to ordered)
        (ap some (
          copy_loop_lem os file itd true to (base + from) sound fuel 0 (to - from) [] (omega arith)
            (omega arith) (omega arith, λ r. omega arith)
          ∙ ap (λ k. done k (take (to - from) (drop (base + from + 0) file))) (omega arith)
          ∙ ap (done (to - from)) (
              ap (λ k. take (to - from) (drop k file)) (omega arith)
              ∙ ap (take (to - from)) (sym (drop-drop base from file))
              ∙ sym (
                  take-drop-take_within (to - from) from itd.body_size (drop base file)
                    (omega arith)))))

  -- On a file that is too short for an item whose body is not empty WriteTo never ends, whatever fuel it
  -- is given, where reads do not fail.
  pub write_all_stuck :
      (fuel : ℕ)
      → length file < itd.off + itd.head_size + itd.body_size
      → 0 < itd.body_size
      → write_all fuel os file itd ≡ out_of_fuel
  unfolding write_all write_to
  write_all_stuck fuel short more =
      copy_loop_stuck os file itd false 0 (itd.off + itd.head_size + 0) sound fuel 0 itd.body_size
        [] (omega arith) more (omega arith, λ r. cc)
