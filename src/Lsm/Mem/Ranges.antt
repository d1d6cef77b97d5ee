-- ===== src/Lsm/Mem/Ranges.antt =====
-- `WriteToRange` of lsm/itemMem.go. The writer does not fail.
use elinproxy.Prelude.{
  ℕ, zero, suc, ◌+◌, ◌-◌, ◌≤◌, ◌<◌, ◌≡◌, refl, subst, sym, ap, ◌∙◌, Bool, true, false, ◌||◌, none,
  some, [], ◌∷◌, ◌++◌, arith, if◌then◌else◌, length, take, drop, ltb, leb, min, length-take,
  length-drop, take-drop-take, take-take, drop-drop, Option-cases, inl, inr,
}
use mathlib.Core.List.{append_assoc}
use native.Mathlib.Decide.{dec_le}
use elinproxy.Lsm.File.{Bytes, Os, got, broke, read_at}
use elinproxy.Lsm.Disk.{buffer_size}
use elinproxy.Lsm.Mem.{ItemMem, len}
use elinproxy.Lsm.Mem.Body.{content}

-- How a copy of a range ended: ErrWrongRange; a slice of the body beyond its length, which panics or
-- shows what the buffer held before, as its capacity has it; an error of the file; or the count, and
-- what the writer was given.
pub data Ranged : Type 0 where
  wrong_range beyond_length failed out_of_fuel : Ranged
  sent : ℕ → Bytes → Ranged

-- The loop over the temporary file. A read that is shorter than the buffer comes with the end of the
-- file, and what is read beyond the range is cut off.
unfoldable pub range_loop : ℕ → Os → Bytes → ℕ → ℕ → ℕ → Bytes → Ranged
range_loop zero os file seek left written out = out_of_fuel
range_loop (suc fuel) os file seek left written out = elim (read_at os file seek buffer_size) [
  | broke n ↦ failed
  | got b ↦
      let n = length b in
      let rest = range_loop fuel os file (seek + n) (left - n) (written + n) (out ++ b) in
      let last = if ltb left n then take left b else b in
      if ltb n buffer_size || leb left n then sent (written + length last) (out ++ last) else rest
]

slice_body : Bytes → ℕ → ℕ → Ranged
slice_body body from to =
    if ltb (length body) to
    then beyond_length
    else sent (to - from) (take (to - from) (drop from body))

-- The ends come from `ValidRange`, so they are not negative.
unfoldable pub write_to_range : ℕ → Os → ItemMem → ℕ → ℕ → Ranged
unfolding range_loop slice_body
write_to_range fuel os itm from to =
    if leb to from || ltb (len os itm) from then wrong_range else elim itm.w [
      | none ↦ slice_body itm.body from to
      | some file ↦ if os.reopens then range_loop fuel os file from (to - from) 0 [] else failed
    ]

lt : (m n : ℕ) → m < n → ltb m n ≡ true
lt m n h = ground arith

not_lt : (m n : ℕ) → n ≤ m → ltb m n ≡ false
not_lt m n h = ground arith

last_guard : (b : Bool) (left n : ℕ) → left ≤ n → (b || leb left n) ≡ true
last_guard true left n h = refl
last_guard false left n h = ground arith

more_guard : (n left : ℕ) → buffer_size ≤ n → n < left → (ltb n buffer_size || leb left n) ≡ false
more_guard n left h h' = ground arith

take-whole : (b : Bytes) → take (length b) b ≡ b
take-whole [] = refl
take-whole (x ∷ b) = ap (◌∷◌ x) (take-whole b)

-- What is left of a block that holds it.
cut :
    (left : ℕ) (b : Bytes)
    → left ≤ length b
    → (if ltb left (length b) then take left b else b) ≡ take left b
cut left b h = elim (dec_le (length b) left) [
  | yes same ↦
      rw (not_lt left (length b) same) (sym (take-whole b) ∙ ap (λ k. take k b) (omega arith))
  | no more ↦ rw (lt left (length b) (omega arith)) refl
]

module _ (os : Os) (file : Bytes) (reads : (off : ℕ) → os.read_fault off ≡ none) where
  block : ℕ → Bytes
  block seek = take buffer_size (drop seek file)

  length-block : (seek : ℕ) → length (block seek) ≡ min buffer_size (length file - seek)
  unfolding block
  length-block seek =
      length-take buffer_size (drop seek file) ∙ ap (min buffer_size) (length-drop seek file)

  after_read : ℕ → ℕ → ℕ → ℕ → Bytes → Ranged
  unfolding block
  after_read fuel seek left written out =
      let b = block seek in
      let n = length b in
      let last = if ltb left n then take left b else b in
      if ltb n buffer_size || leb left n
      then sent (written + length last) (out ++ last)
      else range_loop fuel os file (seek + n) (left - n) (written + n) (out ++ b)

  loop_step :
      (fuel seek left written : ℕ) (out : Bytes)
      → range_loop (suc fuel) os file seek left written out ≡ after_read fuel seek left written out
  unfolding range_loop after_read read_at block
  loop_step fuel seek left written out = rw (reads seek, range_loop, read_at) refl

  last_block :
      (seek left : ℕ) → left ≤ buffer_size → take left (block seek) ≡ take left (drop seek file)
  unfolding block
  last_block seek left small = take-take left buffer_size (drop seek file) small

  range_loop_lem :
      (fuel seek left written : ℕ) (out : Bytes)
      → left < fuel
      → 0 < left
      → seek + left ≤ length file
      → range_loop fuel os file seek left written out
        ≡ sent (written + left) (out ++ take left (drop seek file))
  unfolding after_read block
  range_loop_lem zero seek left written out enough more fits = absurd (omega arith)
  range_loop_lem (suc fuel) seek left written out enough more fits =
      loop_step fuel seek left written out ∙ elim (dec_le left buffer_size) [
        | yes small ↦ ends small
        | no large ↦ goes_on large (
            range_loop_lem fuel (seek + buffer_size) (left - buffer_size) (written + buffer_size)
              (out ++ block seek) (omega arith) (omega arith) (omega arith))
      ]
    where
      n : ℕ
      n = length (block seek)

      whole : n ≡ min buffer_size (length file - seek)
      whole = length-block seek

      ends :
          left ≤ buffer_size
          → after_read fuel seek left written out
            ≡ sent (written + left) (out ++ take left (drop seek file))
      ends small =
          let guard : (ltb n buffer_size || leb left n) ≡ true =
            last_guard (ltb n buffer_size) left n (omega (arith, whole)) in
          rw guard (
            ap (λ b. sent (written + length b) (out ++ b))
              (cut left (block seek) (omega (arith, whole)) ∙ last_block seek left small)
            ∙ ap (λ k. sent (written + k) (out ++ take left (drop seek file)))
                (length-take left (drop seek file)
                  ∙ ap (min left) (length-drop seek file)
                  ∙ omega arith))

      goes_on :
          ¬ (left ≤ buffer_size)
          → (range_loop fuel os file
                (seek + buffer_size)
                (left - buffer_size)
                (written + buffer_size)
                (out ++ block seek)
              ≡ sent (written + buffer_size + (left - buffer_size)) (
                  (out ++ block seek)
                  ++ take (left - buffer_size) (drop (seek + buffer_size) file)))
          → after_read fuel seek left written out
            ≡ sent (written + left) (out ++ take left (drop seek file))
      goes_on large ih =
          let full : n ≡ buffer_size = omega (arith, whole) in
          let guard : (ltb n buffer_size || leb left n) ≡ false =
            more_guard n left (omega (arith, full)) (omega (arith, full)) in
          rw (guard, full)
            (ih
              ∙ ap
                  (λ k. sent k (
                    (out ++ block seek)
                    ++ take (left - buffer_size) (drop (seek + buffer_size) file)))
                  (omega arith)
              ∙ ap (sent (written + left)) (
                  append_assoc out (block seek)
                    (take (left - buffer_size) (drop (seek + buffer_size) file))
                  ∙ ap (◌++◌ out) (
                      ap (λ ys. block seek ++ take (left - buffer_size) ys)
                        (sym (drop-drop seek buffer_size file))
                      ∙ take-drop-take buffer_size (left - buffer_size) (drop seek file)
                      ∙ ap (λ k. take k (drop seek file)) (omega arith))))

pub len_content : (os : Os) (itm : ItemMem) → os.stats ≡ true → len os itm ≡ length (content itm)
unfolding len
len_content os itm stats = elim (Option-cases itm.w) [
  | inl e ↦ rw (e, len, content) refl
  | inr (c, e) ↦ rw (e, len, content) (rw stats refl)
]

-- A range inside the item is given its bytes, whether the body is in memory or in the temporary file,
-- on a system whose reads, opens and stats do not fail, and with fuel above the length of the range.
pub write_to_range_lem :
    (os : Os) (itm : ItemMem) (fuel from to : ℕ)
    → ((off : ℕ) → os.read_fault off ≡ none)
    → os.reopens ≡ true
    → os.stats ≡ true
    → to - from < fuel
    → from < to
    → to ≤ length (content itm)
    → write_to_range fuel os itm from to
      ≡ sent (to - from) (take (to - from) (drop from (content itm)))
unfolding write_to_range slice_body len
write_to_range_lem os itm fuel from to reads opens stats enough ordered inside =
    let guard : (leb to from || ltb (len os itm) from) ≡ false =
      ground (arith, len_content os itm stats) in
    elim (Option-cases itm.w) [
      | inl e ↦
          let c : content itm ≡ itm.body = ap (λ o. elim o [ none ↦ itm.body | some d ↦ d ]) e in
          subst
            (λ x.
              write_to_range fuel os itm from to
              ≡ sent (to - from) (take (to - from) (drop from x)))
            (sym c)
            (rw (guard, write_to_range)
              (rw e (rw (not_lt (length itm.body) to (omega (arith, ap length c))) refl)))
      | inr (file, e) ↦
          let c : content itm ≡ file = ap (λ o. elim o [ none ↦ itm.body | some d ↦ d ]) e in
          subst
            (λ x.
              write_to_range fuel os itm from to
              ≡ sent (to - from) (take (to - from) (drop from x)))
            (sym c)
            (rw (guard, write_to_range)
              (rw e (
                ap (λ b. if b then range_loop fuel os file from (to - from) 0 [] else failed) opens
                ∙ (range_loop_lem os file reads fuel from (to - from) 0 [] enough (omega arith)
                      (omega (arith, ap length c))
                    ∙ ap (λ k. sent k (take (to - from) (drop from file))) (omega arith)))))
    ]
