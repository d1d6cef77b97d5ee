-- ===== src/Handler/Headers.antt =====
-- http.Header as httpsrv/handler uses it: names are tokens and are put into their canonical form.
use elinproxy.Prelude.{
  ℕ, ◌+◌, ◌-◌, ◌≡◌, refl, sym, ap, ◌∙◌, Bool, true, false, ◌&&◌, List, [], ◌∷◌, ◌++◌, arith,
  if◌then◌else◌, leb, ◌==◌, Bool-cases, inl, inr,
}
use elinproxy.Text.{Bytes, codes, same, same_eq, same_self, none_of}
use elinproxy.Lsm.Mem.{Header}

upper_case : ℕ → ℕ
upper_case c = if leb b'a' c && leb c b'z' then c - 32 else c

lower_case : ℕ → ℕ
lower_case c = if leb b'A' c && leb c b'Z' then c + 32 else c

canonical_from : Bool → Bytes → Bytes
canonical_from first [] = []
canonical_from first (c ∷ s) =
    (if first then upper_case c else lower_case c) ∷ canonical_from (c == b'-') s

-- CanonicalMIMEHeaderKey
unfoldable pub canonical : Bytes → Bytes
unfolding canonical_from upper_case lower_case
canonical k = canonical_from true k

abbrev first_of : List Bytes → Bytes
first_of [] = []
first_of (v ∷ vs) = v

find : Bytes → Header → Bytes
find k [] = []
find k ((j, vs) ∷ h) = if same j k then first_of vs else find k h

put : Bytes → Bytes → Header → Header
put k v [] = (k, v ∷ []) ∷ []
put k v ((j, vs) ∷ h) = let rest = put k v h in if same j k then (k, v ∷ []) ∷ h else (j, vs) ∷ rest

remove : Bytes → Header → Header
remove k [] = []
remove k ((j, vs) ∷ h) = let rest = remove k h in if same j k then rest else (j, vs) ∷ rest

-- Get: the first value, or the empty text
unfoldable pub get : Bytes → Header → Bytes
unfolding find canonical
get k h = find (canonical k) h

-- Set
unfoldable pub set : Bytes → Bytes → Header → Header
unfolding put canonical
set k v h = put (canonical k) v h

-- Del
unfoldable pub del : Bytes → Header → Header
unfolding remove canonical
del k h = remove (canonical k) h

-- `for _, v := range names { h.Del(v) }`
unfoldable pub del_all : List Bytes → Header → Header
unfolding del
del_all [] h = h
del_all (k ∷ ks) h = del_all ks (del k h)

-- strings.Join with ", "
unfoldable pub join : List Bytes → Bytes
join [] = []
join (v ∷ []) = v
join (v ∷ v' ∷ vs) = v ++ codes ", " ++ join (v' ∷ vs)

-- `for k, v := range headers { w.Header().Set(k, strings.Join(v, ", ")) }`
unfoldable pub copy_joined : Header → Header → Header
unfolding set join
copy_joined [] h = h
copy_joined ((k, vs) ∷ hs) h = copy_joined hs (set k (join vs) h)

no_same : (i j k : Bytes) → same i k ≡ false → same i j ≡ true → same k j ≡ false
no_same i j k n e = elim (Bool-cases (same k j)) [
  | inl t ↦
      let there : same i k ≡ true =
        ap (λ x. same x k) (same_eq i j e ∙ sym (same_eq k j t)) ∙ same_self k in
      cc
  | inr f ↦ f
]

find-put : (j k v : Bytes) (h : Header) → find j (put k v h) ≡ (if same k j then v else find j h)
unfolding find put
find-put j k v [] = refl
find-put j k v ((i, vs) ∷ h) = elim (Bool-cases (same i k)) [
  | inl e ↦ rw (same_eq i k e) (rw (same_self k) (ground arith))
  | inr n ↦ rw n (ground (arith, find-put j k v h, no_same i j k n))
]

find-remove : (j k : Bytes) (h : Header) → find j (remove k h) ≡ (if same k j then [] else find j h)
unfolding find remove
find-remove j k [] = ground arith
find-remove j k ((i, vs) ∷ h) = elim (Bool-cases (same i k)) [
  | inl e ↦ rw (same_eq i k e) (rw (same_self k) (ground (arith, find-remove j k h)))
  | inr n ↦ rw n (ground (arith, find-remove j k h, no_same i j k n))
]

pub get-set :
    (j k v : Bytes) (h : Header)
    → get j (set k v h) ≡ (if same (canonical k) (canonical j) then v else get j h)
unfolding get set
get-set j k v h = find-put (canonical j) (canonical k) v h

-- A header that no name on the list means.
abbrev pub Kept : Bytes → List Bytes → Type 0
Kept j ks = none_of (λ k. same (canonical k) (canonical j)) ks ≡ true

pub get-del_all :
    (j : Bytes) (ks : List Bytes) (h : Header) → Kept j ks → get j (del_all ks h) ≡ get j h
unfolding get del_all del
get-del_all j [] h kept = refl
get-del_all j (k ∷ ks) h kept =
    ground (arith, get-del_all j ks (del k h), find-remove (canonical j) (canonical k) h)

pub get-set_self : (k v : Bytes) (h : Header) → get k (set k v h) ≡ v
get-set_self k v h = get-set k k v h ∙ ap (λ b. if b then v else get k h) (same_self (canonical k))

pub get-set_other :
    (j k v : Bytes) (h : Header)
    → same (canonical k) (canonical j) ≡ false
    → get j (set k v h) ≡ get j h
get-set_other j k v h n = get-set j k v h ∙ ap (λ b. if b then v else get j h) n
