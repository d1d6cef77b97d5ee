-- ===== src/Handler/Range/Printed.antt =====
-- What `parseRange` reads of ranges that were printed with both their ends.
use elinproxy.Prelude.{
  ℕ, ◌+◌, ◌<◌, ◌≡◌, ◌≢◌, refl, sym, ap, ◌∙◌, false, some, List, [], ◌∷◌, ◌++◌, map, if◌then◌else◌,
  ◌==◌, has, has-append, arith, length, length-append, ==_ne,
}
use mathlib.Core.List.{append_assoc, append-nil}
use elinproxy.Prelude.Int.{ℤ, pos, int64_max}
use elinproxy.Text.{Bytes}
use elinproxy.Text.Decimal.{
  format, AllDigits, format-AllDigits, format-ne-nil, parse_int, parse_int-format,
}
use elinproxy.Text.Split.{split, split_one, split_two, trim_space, NoSpace, trim_space_same}
use elinproxy.Handler.Range.{
  HttpRange, ranges, range_prefix, parse_parts, keep_range, parse_list, parse_range,
}

-- A range with both its ends, and its text.
abbrev pub Ends : Type 0
Ends = ℕ × ℕ

unfoldable pub print : Ends → Bytes
print (a, b) = format a ++ b'-' ∷ format b

-- the texts of several, with commas between them
unfoldable pub print_all : Ends → List Ends → Bytes
unfolding print
print_all r [] = print r
print_all r (r' ∷ rs) = print r ++ b',' ∷ print_all r' rs

abbrev pub as_range : Ends → HttpRange
as_range (a, b) = record { start = pos a; length = pos b }

abbrev pub AllFit : List Ends → Type 0
AllFit [] = Unit {0}
AllFit ((a, b) ∷ rs) = (a < int64_max) × (b < int64_max) × AllFit rs

no_comma : (s : Bytes) → AllDigits s → has b',' s ≡ false
no_comma [] h = refl
no_comma (c ∷ s) h = ground (arith, no_comma s)

no_dash : (s : Bytes) → AllDigits s → has b'-' s ≡ false
no_dash [] h = refl
no_dash (c ∷ s) h = ground (arith, no_dash s)

no_space : (s t : Bytes) → AllDigits s → NoSpace t → NoSpace (s ++ t)
no_space [] t h h' = h'
no_space (c ∷ s) t h h' = ground (arith, no_space s t)

digits-NoSpace : (s : Bytes) → AllDigits s → NoSpace s
digits-NoSpace [] h = tt
digits-NoSpace (c ∷ s) h = ground (arith, digits-NoSpace s)

print-NoSpace : (r : Ends) → NoSpace (print r)
unfolding print
print-NoSpace (a, b) =
    no_space (format a) (b'-' ∷ format b) (format-AllDigits a)
      (refl, digits-NoSpace (format b) (format-AllDigits b))

print-no_comma : (r : Ends) → has b',' (print r) ≡ false
unfolding print
print-no_comma (a, b) =
    has-append b',' (format a) (b'-' ∷ format b)
    ∙ ground
        (arith, no_comma (format a) (format-AllDigits a), no_comma (format b) (format-AllDigits b))

split-print_all : (r : Ends) (rs : List Ends) → split b',' (print_all r rs) ≡ map print (r ∷ rs)
unfolding print_all
split-print_all r [] = split_one b',' (print r) (print-no_comma r)
split-print_all r (r' ∷ rs) =
    split_two b',' (print r) (print_all r' rs) (print-no_comma r)
    ∙ ap (◌∷◌ (print r)) (split-print_all r' rs)

split-print : (a b : ℕ) → split b'-' (print (a, b)) ≡ format a ∷ format b ∷ []
unfolding print
split-print a b =
    split_two b'-' (format a) (format b) (no_dash (format a) (format-AllDigits a))
    ∙ ap (◌∷◌ (format a)) (split_one b'-' (format b) (no_dash (format b) (format-AllDigits b)))

-- One part that is a number.
part :
    (i n : ℕ) (s : Bytes) (parts : List Bytes) (r : HttpRange)
    → s ≢ []
    → parse_int s ≡ some (pos n)
    → parse_parts i (s ∷ parts) r
      ≡ parse_parts
          (i + 1)
          parts
          (if i == 0 then record r { start = pos n } else record r { length = pos n })
unfolding parse_parts
part i n [] parts r ne e = absurd (ne refl)
part i n (c ∷ s) parts r ne e = rw (e, parse_parts) refl

parts-print :
    (a b : ℕ) (r : HttpRange)
    → a < int64_max
    → b < int64_max
    → parse_parts 0 (split b'-' (print (a, b))) r ≡ some (as_range (a, b))
unfolding parse_parts
parts-print a b r fa fb =
    ap (λ ps. parse_parts 0 ps r) (split-print a b)
    ∙ part 0 a (format a) (format b ∷ []) r (format-ne-nil a) (parse_int-format a fa)
    ∙ part 1 b (format b) [] (record r { start = pos a }) (format-ne-nil b) (parse_int-format b fb)

-- One range of the list
list_step :
    (def_size : ℤ) (size : ℕ) (s : Bytes) (ss : List Bytes) (found : List HttpRange) (r : HttpRange)
    → s ≢ []
    → trim_space s ≡ s
    → parse_parts 0 (split b'-' s) (record { start = pos 0; length = pos size }) ≡ some r
    → parse_list def_size size (s ∷ ss) found
      ≡ parse_list def_size size ss (keep_range def_size r found)
unfolding parse_list
list_step def_size size [] ss found r ne trimmed e = absurd (ne refl)
list_step def_size size (c ∷ s) ss found r ne trimmed e =
    rw (trimmed, parse_list) (rw (e, parse_list) refl)

print-ne-nil : (r : Ends) → print r ≢ []
unfolding print
print-ne-nil (a, b) e =
    absurd (omega (arith, ap length e, length-append (format a) (b'-' ∷ format b)))

keep_range-as_range :
    (def_size : ℤ) (a b : ℕ) (found : List HttpRange)
    → keep_range def_size (as_range (a, b)) found ≡ found ++ as_range (a, b) ∷ []
unfolding keep_range
keep_range-as_range def_size a b found = ground arith

list-print :
    (def_size : ℤ) (size : ℕ) (rs : List Ends) (found : List HttpRange)
    → AllFit rs
    → parse_list def_size size (map print rs) found ≡ some (found ++ map as_range rs)
unfolding parse_list keep_range
list-print def_size size [] found fit = ap some (sym (append-nil found))
list-print def_size size ((a, b) ∷ rs) found (fa, fb, fit) =
    list_step def_size size (print (a, b)) (map print rs) found (as_range (a, b))
      (print-ne-nil (a, b)) (trim_space_same (print (a, b)) (print-NoSpace (a, b)))
      (parts-print a b _ fa fb)
    ∙ ap (parse_list def_size size (map print rs)) (keep_range-as_range def_size a b found)
    ∙ list-print def_size size rs (found ++ as_range (a, b) ∷ []) fit
    ∙ ap some (append_assoc found (as_range (a, b) ∷ []) (map as_range rs))

-- Ranges that are printed with both ends, and commas between them, are read back in order, for an
-- item that is not empty.
pub parse_range-print_all :
    (r : Ends) (rs : List Ends) (def_size : ℤ) (size : ℕ)
    → AllFit (r ∷ rs)
    → 0 < size
    → parse_range (range_prefix ++ print_all r rs) def_size size ≡ ranges (map as_range (r ∷ rs))
unfolding parse_range
parse_range-print_all r rs def_size size fit more =
    rw
      (
        ==_ne size 0 (λ e. omega (arith, e)),
        split-print_all r rs,
        list-print def_size size (r ∷ rs) [] fit,
      )
      refl
