-- ===== src/Handler/Range.antt =====
-- `parseRange` of httpsrv/handler/utils.go: the header Range of a request.
pub mod Printed
use elinproxy.Prelude.{
  ℕ, ◌+◌, Bool, true, false, ◌||◌, Option, none, some, List, [], ◌∷◌, ◌++◌, if◌then◌else◌, ◌==◌,
  length, drop, ◌>>=◌,
}
use elinproxy.Prelude.Int.{ℤ, pos, negsuc, ◌+ℤ◌, wrap64, leb_ℤ, eqb_ℤ}
use elinproxy.Text.{Bytes, codes, has_prefix}
use elinproxy.Text.Decimal.{parse_int}
use elinproxy.Text.Split.{split, trim_space}

pub record HttpRange : Type 0 where
  pub start : ℤ
  pub length : ℤ

-- nil without an error, the two errors, or a list of ranges.
pub data Parsed : Type 0 where
  not_present invalid_range no_range : Parsed
  ranges : List HttpRange → Parsed

abbrev pub range_prefix : Bytes
range_prefix = codes "bytes="

-- The loop over the parts between dashes; `none` is an error of ParseInt.
unfoldable pub parse_parts : ℕ → List Bytes → HttpRange → Option HttpRange
parse_parts i [] r = some r
parse_parts i ([] ∷ parts) r = parse_parts (i + 1) parts r
parse_parts i ((c ∷ pa) ∷ parts) r = elim (parse_int (c ∷ pa)) [
  | none ↦ none
  | some v ↦
      parse_parts (i + 1) parts (if i == 0 then record r { start = v } else record r { length = v })
]

-- `if start >= 0 { … append … }`
unfoldable pub keep_range : ℤ → HttpRange → List HttpRange → List HttpRange
keep_range def_size r found =
    if leb_ℤ (pos 0) r.start
    then found
      ++ (if eqb_ℤ r.length (negsuc 0)
          then record r { length = wrap64 (r.start +ℤ def_size) }
          else r)
        ∷ []
    else found

-- The loop over the ranges between commas.
unfoldable pub parse_list : ℤ → ℕ → List Bytes → List HttpRange → Option (List HttpRange)
unfolding parse_parts keep_range
parse_list def_size size [] found = some found
parse_list def_size size (ra ∷ ras) found = elim (trim_space ra) [
  | [] ↦ parse_list def_size size ras found
  | c ∷ text ↦
      elim (parse_parts 0 (split b'-' (c ∷ text)) (record { start = pos 0; length = pos size })) [
        | none ↦ none
        | some r ↦ parse_list def_size size ras (keep_range def_size r found)
      ]
]

some_ranges : Option (List HttpRange) → Parsed
some_ranges none = invalid_range
some_ranges (some []) = no_range
some_ranges (some (r ∷ rs)) = ranges (r ∷ rs)

-- `size` is the length of an item, which is not negative.
unfoldable pub parse_range : Bytes → ℤ → ℕ → Parsed
unfolding parse_list some_ranges
parse_range [] def_size size = not_present
parse_range (c ∷ s) def_size size =
    if size == 0
    then not_present
    else if has_prefix (c ∷ s) range_prefix
    then some_ranges (parse_list def_size size (split b',' (drop (length range_prefix) (c ∷ s))) [])
    else invalid_range
