-- ===== src/Text/Decimal.antt =====
-- strconv.Itoa and strconv.ParseInt in base ten.
use elinproxy.Prelude.{
  ℕ, zero, suc, ◌+◌, ◌-◌, ◌*◌, ◌/◌, ◌%◌, ◌<◌, ◌≡◌, ◌≢◌, refl, sym, ap, ◌∙◌, Bool, true, false,
  Option, none, some, [], ◌∷◌, if◌then◌else◌, ltb, leb, ◌==◌, arith, ◌>>=◌,
}
use mathlib.Core.Option.{some-injective}
use elinproxy.Prelude.Int.{ℤ, pos, negsuc, int64_max}
use elinproxy.Text.{Bytes}

-- The last digit goes in front of what is there already; a number has fewer digits than its fuel.
emit : ℕ → ℕ → Bytes → Bytes
emit zero n out = out
emit (suc fuel) n out =
    let d = b'0' + n % 10 in
    let rest = emit fuel (n / 10) (d ∷ out) in if ltb n 10 then d ∷ out else rest

unfoldable pub format : ℕ → Bytes
unfolding emit
format n = emit (n + 1) n []

unfoldable pub itoa : ℤ → Bytes
unfolding format
itoa (pos n) = format n
itoa (negsuc n) = b'-' ∷ format (n + 1)

abbrev pub is_digit : ℕ → Bool
is_digit c = if ltb c b'0' then false else leb c b'9'

-- The number that digits spell behind `n`; `none` is a syntax error.
unfoldable pub scan : Bytes → ℕ → Option ℕ
scan [] n = some n
scan (c ∷ s) n = let rest = scan s (n * 10 + (c - b'0')) in if is_digit c then rest else none

-- ParseUint without its bound
unfoldable pub parse_digits : Bytes → Option ℕ
unfolding scan
parse_digits [] = none
parse_digits (c ∷ s) = scan (c ∷ s) 0

below : ℕ → Option ℕ → Option ℕ
below limit o = do n ← o; if ltb n limit then some n else none

negated : Option ℕ → Option ℤ
negated o = do n ← o; some (if n == 0 then pos 0 else negsuc (n - 1))

-- ParseInt(s, 10, 64); `none` is an error, of syntax or of range.
unfoldable pub parse_int : Bytes → Option ℤ
unfolding parse_digits below negated
parse_int [] = none
parse_int (c ∷ s) =
    if c == b'-'
    then negated (below (int64_max + 1) (parse_digits s))
    else (do n ← below int64_max (parse_digits (if c == b'+' then s else c ∷ s)); some (pos n))

abbrev pub AllDigits : Bytes → Type 0
AllDigits [] = Unit {0}
AllDigits (c ∷ s) = (is_digit c ≡ true) × AllDigits s

emit-AllDigits : (fuel n : ℕ) (out : Bytes) → AllDigits out → AllDigits (emit fuel n out)
unfolding emit
emit-AllDigits zero n out h = h
emit-AllDigits (suc fuel) n out h =
    ground (arith, emit-AllDigits fuel (n / 10) ((b'0' + n % 10) ∷ out))

-- Reading the digits of `n` from left to right comes back to `n`.
scan-emit : (fuel n : ℕ) (out : Bytes) → n < fuel → scan (emit fuel n out) 0 ≡ scan out n
unfolding emit scan
scan-emit zero n out h = absurd (omega arith)
scan-emit (suc fuel) n out h = ground (arith, scan-emit fuel (n / 10) ((b'0' + n % 10) ∷ out))

pub format-AllDigits : (n : ℕ) → AllDigits (format n)
unfolding format
format-AllDigits n = emit-AllDigits (n + 1) n [] tt

emit-ne-nil : (fuel n : ℕ) (out : Bytes) → out ≢ [] → emit fuel n out ≢ []
unfolding emit
emit-ne-nil zero n out h = h
emit-ne-nil (suc fuel) n out h = ground (arith, emit-ne-nil fuel (n / 10) ((b'0' + n % 10) ∷ out))

cons_not_nil : (c : ℕ) (s : Bytes) → c ∷ s ≢ []
cons_not_nil c s e = cc

pub format-ne-nil : (n : ℕ) → format n ≢ []
unfolding format emit
format-ne-nil n = ground (
  arith,
  cons_not_nil (b'0' + n % 10) [],
  emit-ne-nil n (n / 10) _ (cons_not_nil (b'0' + n % 10) []),
)

parse_digits-scan : (s : Bytes) → s ≢ [] → parse_digits s ≡ scan s 0
unfolding parse_digits
parse_digits-scan [] h = absurd (h refl)
parse_digits-scan (c ∷ s) h = refl

pub parse_digits-format : (n : ℕ) → parse_digits (format n) ≡ some n
unfolding format scan
parse_digits-format n =
    parse_digits-scan (format n) (format-ne-nil n) ∙ scan-emit (n + 1) n [] (omega arith)

pub format-inj : (a b : ℕ) → format a ≡ format b → a ≡ b
format-inj a b e =
    some-injective a b (sym (parse_digits-format a) ∙ ap parse_digits e ∙ parse_digits-format b)

parse_int-digits :
    (s : Bytes) (n : ℕ)
    → AllDigits s
    → parse_digits s ≡ some n
    → n < int64_max
    → parse_int s ≡ some (pos n)
unfolding parse_int below parse_digits
parse_int-digits [] n h e fits = cc
parse_int-digits (c ∷ s) n h e fits =
    let sign : (c == b'-') ≡ false = ground arith in
    let plus : (c == b'+') ≡ false = ground arith in
    let small : ltb n int64_max ≡ true = ground arith in rw (sign, plus, e, small) refl

-- ParseInt reads what Itoa wrote, for the numbers that an int64 holds.
pub parse_int-format : (n : ℕ) → n < int64_max → parse_int (format n) ≡ some (pos n)
parse_int-format n fits =
    parse_int-digits (format n) n (format-AllDigits n) (parse_digits-format n) fits
