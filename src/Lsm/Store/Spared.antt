-- ===== src/Lsm/Store/Spared.antt =====
-- What the calls of lsm/lsm.go do to the items: an eviction spares those in use.
use elinproxy.Prelude.{
  ℕ, ◌≡◌, refl, sym, ap, ◌∙◌, ◌⊎◌, inl, inr, Bool, Option, none, some, List, [], ◌∷◌, if◌then◌else◌,
  ltb, ◌==◌, Bool-cases, Option-cases, length, ==_iff, ◌>>=◌,
}
use elinproxy.Kvsm.Entry.{Ptr}
use elinproxy.Kvsm.Store
use elinproxy.Kvsm.Store.{Kvsm, int64_mod}
use elinproxy.Lsm.Store.{
  Lsm, Object, set_object, put_item, on_evict_internal, retry_eviction, evict_all, with_mem, set,
  get, found_item, hand_out, retry_eviction_size,
}

-- An item whose use count is not 0 is left as it is; a use count does not change.
abbrev pub Spared : Object → Object → Type 0
Spared o o' = (o'.in_use ≡ o.in_use) × ((o' ≡ o) ⊎ (o.in_use ≡ 0))

Spared-self : (o : Object) → Spared o o
Spared-self o = (refl, inl refl)

Spared-trans : (a b c : Object) → Spared a b → Spared b c → Spared a c
Spared-trans a b c (n, inl e) (n', inl e') = (n' ∙ n, inl (e' ∙ e))
Spared-trans a b c (n, inl e) (n', inr z) = (n' ∙ n, inr (sym n ∙ z))
Spared-trans a b c (n, inr z) (n', k) = (n' ∙ n, inr z)

Spared-update :
    (objects : Ptr → Object) (p q : Ptr)
    → (objects p).in_use ≡ 0
    → Spared (objects q) (if q == p then put_item (objects p) else objects q)
unfolding put_item
Spared-update objects p q zero = elim (Bool-cases (q == p)) [
  | inl same ↦
      let e : q ≡ p = (==_iff q p).0 same in
      let none_left : (objects q).in_use ≡ 0 = ap (λ x. (objects x).in_use) e ∙ zero in
      rw same (sym none_left, inr none_left)
  | inr other ↦ rw other (Spared-self (objects q))
]

on_evict_internal-Spared :
    (x : Option Ptr) (c : Lsm) (q : Ptr)
    → Spared (c.objects q) ((on_evict_internal x c).0.objects q)
unfolding on_evict_internal
on_evict_internal-Spared none c q = Spared-self (c.objects q)
on_evict_internal-Spared (some p) c q = elim (Bool-cases ((c.objects p).in_use == 0)) [
  | inl t ↦
      rw (t, on_evict_internal) (Spared-update c.objects p q ((==_iff (c.objects p).in_use 0).0 t))
  | inr f ↦
      rw (f, on_evict_internal)
        (elim (Bool-cases (ltb (length c.retry_eviction_ch) retry_eviction_size)) [
          | inl t ↦ rw t (Spared-self (c.objects q))
          | inr f' ↦ rw f' (Spared-self (c.objects q))
        ])
]

evict_all-Spared :
    (xs : List (Option Ptr)) (c : Lsm) (q : Ptr) → Spared (c.objects q) ((evict_all xs c).objects q)
unfolding evict_all
evict_all-Spared [] c q = Spared-self (c.objects q)
evict_all-Spared (x ∷ xs) c q =
    Spared-trans (c.objects q) ((on_evict_internal x c).0.objects q)
      ((evict_all xs (on_evict_internal x c).0).objects q) (on_evict_internal-Spared x c q)
      (evict_all-Spared xs (on_evict_internal x c).0 q)

List-cases : {A : Type 0} (l : List A) → (l ≡ []) ⊎ ((x : A) × (xs : List A) × (l ≡ x ∷ xs))
List-cases [] = inl refl
List-cases (x ∷ xs) = inr (x, xs, refl)

pub retry-Spared : (c : Lsm) (q : Ptr) → Spared (c.objects q) ((retry_eviction c).objects q)
unfolding retry_eviction
retry-Spared c q = elim (List-cases c.retry_eviction_ch) [
  | inl e ↦ rw (e, retry_eviction) (Spared-self (c.objects q))
  | inr (p, rest, e) ↦
      rw (e, retry_eviction)
        (on_evict_internal-Spared (some p) (record c { retry_eviction_ch = rest }) q)
]

pub with_mem-Spared :
    (m : Kvsm Ptr) (c : Lsm) (q : Ptr) → Spared (c.objects q) ((with_mem m c).objects q)
unfolding with_mem
with_mem-Spared m c q = evict_all-Spared m.evicted (record c { mem = record m { evicted = [] } }) q

pub set-objects : (e p : Ptr) (ttl now : ℕ) (c : Lsm) → (set e p ttl now c).objects ≡ c.objects
unfolding set
set-objects e p ttl now c = elim (Bool-cases (ltb c.min_lsm_ttl ttl)) [
  | inl t ↦ rw (t, set) refl
  | inr f ↦ rw (f, set) refl
]

-- What Get hands out, if anything.
found_cases :
    (f : Store.Found Ptr) (c : Lsm)
    → (found_item f c ≡ (c, none))
      ⊎ ((p : Ptr) × (x : Bool) × (found_item f c
            ≡ (set_object p (hand_out (c.objects p)) c, some (p, x))))
unfolding found_item
found_cases f c = elim (Option-cases f.value) [
  | inl e ↦ inl (rw (e, found_item) refl)
  | inr (p, e) ↦ elim (Bool-cases f.ok) [
    | inl t ↦ inr (p, f.is_expired, rw (e, found_item) (rw t refl))
    | inr n ↦ inl (rw (e, found_item) (rw n refl))
  ]
]

pub get_cases :
    (now key : ℕ) (c c' : Lsm) (o : Option (Ptr × Bool))
    → get now key c ≡ some (c', o)
    → ((c' ≡ c) × (o ≡ none))
      ⊎ ((p : Ptr) × (x : Bool) × (c' ≡ set_object p (hand_out (c.objects p)) c)
          × (o ≡ some (p, x)))
unfolding get
get_cases now key c c' o e = elim (Option-cases (Store.get now key c.mem)) [
  | inl gone ↦ absurd (no_result (sym (ap get_with gone) ∙ e))
  | inr (f, there) ↦
      let is : some (found_item f c) ≡ some (c', o) = sym (ap get_with there) ∙ e in
      let pair : found_item f c ≡ (c', o) = cc in
      elim (found_cases f c) [
        | inl m ↦ inl (ap (λ x. x.0) (sym pair ∙ m), ap (λ x. x.1) (sym pair ∙ m))
        | inr (p, x, m) ↦ inr (p, x, ap (λ y. y.0) (sym pair ∙ m), ap (λ y. y.1) (sym pair ∙ m))
      ]
]
  where
    get_with : Option (Store.Found Ptr) → Option (Lsm × Option (Ptr × Bool))
    get_with r = r >>= λ f. some (found_item f c)

    no_result : {A : Type 0} {y : A} → none ≡ some y → ⊥
    no_result h = cc
