-- ===== src/Text.antt =====
-- What the program uses of Go's `strings` and `strconv`, on byte strings, with what each test
-- decides.
pub mod Decimal
pub mod Split
use Prim.Native.Char.{code}
use Prim.Native.String.{String}
use elinproxy.Prelude.{
  ℕ, zero, suc, ◌-◌, ◌≤◌, ◌≡◌, refl, subst, ap, ◌∙◌, ◌↔◌, Bool, true, false, not, ◌&&◌, ◌||◌, List,
  [], ◌∷◌, ◌++◌, length, drop, leb, ◌==◌, ==_iff, ==_self, arith, drop-length, length-append, take,
  if◌then◌else◌, Bool-cases, inl, inr,
}
use mathlib.Core.Bool.{or-true}
use mathlib.Core.List.{Mem, forall_mem-cons, not-mem-nil, mem-cons_self, mem-cons_of_mem}

abbrev pub Bytes : Type 0
Bytes = List ℕ

-- The bytes of a literal in ASCII.
abbrev pub codes : String → Bytes
codes String.[] = []
codes (String.◌∷◌ c s) = code c ∷ codes s

abbrev pub same : Bytes → Bytes → Bool
same [] [] = true
same [] (y ∷ ys) = false
same (x ∷ xs) [] = false
same (x ∷ xs) (y ∷ ys) = x == y && same xs ys

abbrev pub has_prefix : Bytes → Bytes → Bool
has_prefix s [] = true
has_prefix [] (x ∷ p) = false
has_prefix (y ∷ s) (x ∷ p) = y == x && has_prefix s p

-- len(s) >= len(suffix) && s[len(s)-len(suffix):] == suffix
abbrev pub has_suffix : Bytes → Bytes → Bool
has_suffix s t = leb (length t) (length s) && same (drop (length s - length t) s) t

abbrev pub contains : Bytes → Bytes → Bool
contains [] t = has_prefix [] t
contains (x ∷ s) t = has_prefix (x ∷ s) t || contains s t

abbrev pub Starts : Bytes → Bytes → Type 0
Starts s t = (b : Bytes) × (s ≡ t ++ b)

abbrev pub Ends : Bytes → Bytes → Type 0
Ends s t = (a : Bytes) × (s ≡ a ++ t)

abbrev pub Within : Bytes → Bytes → Type 0
Within s t = (a : Bytes) × (b : Bytes) × (s ≡ a ++ (t ++ b))

-- A loop that returns false at the first entry that the test holds of.
abbrev pub none_of {ℓ} : {A : Type ℓ} → (A → Bool) → List A → Bool
none_of test [] = true
none_of test (v ∷ vs) = if test v then false else none_of test vs

abbrev pub NoneOf {ℓ κ} : {A : Type ℓ} → (A → Type κ) → List A → Type (ℓ ⊔ κ)
NoneOf {A} P l = (v : A) → Mem v l → ¬ P v

-- A loop that came to its end has met no entry that ends it.
passed : (b c : Bool) → (if b then false else c) ≡ true → (b ≡ false) × (c ≡ true)
passed true c h = cc
passed false c h = (refl, h)

true_or_not : (b : Bool) → b ≡ true → ¬ (not b ≡ true)
true_or_not true e f = cc
true_or_not false e f = cc

module _ {ℓ κ} {A : Type ℓ} (test : A → Bool) (P : A → Type κ)
    (decides : (v : A) → (test v ≡ true) ↔ P v) where
  pub refuted : (v : A) → test v ≡ false → ¬ P v
  refuted v f p = let t = (decides v).1 p in cc

  none_of-NoneOf : (l : List A) → none_of test l ≡ true → NoneOf P l
  none_of-NoneOf [] h = λ v m. absurd (not-mem-nil m)
  none_of-NoneOf (x ∷ l) h =
      let (f, rest) = passed (test x) (none_of test l) h in
      (forall_mem-cons (λ v. hlevel)).1 (refuted x f, none_of-NoneOf l rest)

  NoneOf-none_of : (l : List A) → NoneOf P l → none_of test l ≡ true
  NoneOf-none_of [] h = refl
  NoneOf-none_of (x ∷ l) h = elim (Bool-cases (test x)) [
    | inl t ↦ absurd (h x mem-cons_self ((decides x).0 t))
    | inr f ↦ rw f (NoneOf-none_of l (λ v m. h v (mem-cons_of_mem x m)))
  ]

  pub none_of_iff : (l : List A) → (none_of test l ≡ true) ↔ NoneOf P l
  none_of_iff l = (none_of-NoneOf l, NoneOf-none_of l)

  pub not-none_of_iff : (l : List A) → (not (none_of test l) ≡ true) ↔ ¬ NoneOf P l
  not-none_of_iff l = (
    λ t n. let f = (none_of_iff l).1 n in true_or_not (none_of test l) f t,
    λ n. elim (Bool-cases (none_of test l)) [
      | inl t ↦ absurd (n ((none_of_iff l).0 t))
      | inr f ↦ rw f refl
    ],
  )

pub both : (a b : Bool) → (a && b) ≡ true → (a ≡ true) × (b ≡ true)
both true b h = (refl, h)
both false b h = cc

pub same_eq : (s t : Bytes) → same s t ≡ true → s ≡ t
same_eq [] [] h = refl
same_eq [] (y ∷ t) h = cc
same_eq (x ∷ s) [] h = cc
same_eq (x ∷ s) (y ∷ t) h =
    let (e, es) = both (x == y) (same s t) h in rw ((==_iff x y).0 e, same_eq s t es) refl

pub same_self : (s : Bytes) → same s s ≡ true
same_self [] = refl
same_self (x ∷ s) = rw (==_self x) (same_self s)

pub has_prefix-Starts : (s t : Bytes) → has_prefix s t ≡ true → Starts s t
has_prefix-Starts s [] h = (s, refl)
has_prefix-Starts [] (x ∷ t) h = cc
has_prefix-Starts (y ∷ s) (x ∷ t) h =
    let (e, es) = both (y == x) (has_prefix s t) h in
    let (b, at) = has_prefix-Starts s t es in
    (b, ap (λ z. z ∷ s) ((==_iff y x).0 e) ∙ ap (◌∷◌ x) at)

has_prefix-append : (t b : Bytes) → has_prefix (t ++ b) t ≡ true
has_prefix-append [] b = refl
has_prefix-append (x ∷ t) b = rw (==_self x) (has_prefix-append t b)

pub has_prefix_iff : (s t : Bytes) → (has_prefix s t ≡ true) ↔ Starts s t
has_prefix_iff s t = (has_prefix-Starts s t, λ (b, e). rw e (has_prefix-append t b))

take-all : (n : ℕ) (s : Bytes) → s ≡ take n s ++ drop n s
take-all zero s = refl
take-all (suc n) [] = refl
take-all (suc n) (x ∷ s) = ap (◌∷◌ x) (take-all n s)

pub has_suffix-Ends : (s t : Bytes) → has_suffix s t ≡ true → Ends s t
has_suffix-Ends s t h =
    let (_, e) = both (leb (length t) (length s)) (same (drop (length s - length t) s) t) h in
    (
      take (length s - length t) s,
      (take-all (length s - length t) s
          ∙ ap (◌++◌ (take (length s - length t) s)) (same_eq (drop (length s - length t) s) t e)),
    )

leb_of_le : (m n : ℕ) → m ≤ n → leb m n ≡ true
leb_of_le m n h = ground arith

has_suffix-append : (a t : Bytes) → has_suffix (a ++ t) t ≡ true
has_suffix-append a t =
    let len = length-append a t in
    let back : length (a ++ t) - length t ≡ length a = omega (arith, len) in
    rw (back, drop-length a t, same_self t)
      (rw (leb_of_le (length t) (length (a ++ t)) (omega (arith, len))) refl)

pub has_suffix_iff : (s t : Bytes) → (has_suffix s t ≡ true) ↔ Ends s t
has_suffix_iff s t = (has_suffix-Ends s t, λ (a, e). rw e (has_suffix-append a t))

contains-Within : (s t : Bytes) → contains s t ≡ true → Within s t
contains-Within [] t h = let (b, e) = has_prefix-Starts [] t h in ([], b, e)
contains-Within (x ∷ s) t h = elim (Bool-cases (has_prefix (x ∷ s) t)) [
  | inl p ↦ let (b, e) = has_prefix-Starts (x ∷ s) t p in ([], b, e)
  | inr p ↦
      let (a, b, e) = contains-Within s t (subst (λ c. (c || contains s t) ≡ true) p h) in
      (x ∷ a, b, ap (◌∷◌ x) e)
]

contains-prefix : (s t : Bytes) → has_prefix s t ≡ true → contains s t ≡ true
contains-prefix [] t h = h
contains-prefix (x ∷ s) t h = rw h refl

contains-append : (a t b : Bytes) → contains (a ++ (t ++ b)) t ≡ true
contains-append [] t b = contains-prefix (t ++ b) t (has_prefix-append t b)
contains-append (x ∷ a) t b =
    rw (contains-append a t b) (or-true (has_prefix (x ∷ (a ++ (t ++ b))) t))

pub contains_iff : (s t : Bytes) → (contains s t ≡ true) ↔ Within s t
contains_iff s t = (contains-Within s t, λ (a, b, e). rw e (contains-append a t b))
