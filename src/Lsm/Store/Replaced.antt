-- ===== src/Lsm/Store/Replaced.antt =====
-- afterWrite of lsm/lsm.go for an item that is still under its key.
use elinproxy.Prelude.{
  ℕ, ◌≡◌, ◌≢◌, refl, sym, ap, ◌∙◌, Bool, true, false, Option, none, some, List, [], ◌∷◌, ◌++◌,
  if◌then◌else◌, ◌==◌, ==_self, ==_ne, length, Bool-cases, inl, inr, ◌>>=◌, ◌⊎◌, ltb,
}
use mathlib.Core.Option.{some-injective}
use elinproxy.Prelude.Assoc.{lookup}
use elinproxy.Kvsm.Entry.{Ptr, Entry, expired, get_value}
use elinproxy.Kvsm.Store
use elinproxy.Kvsm.Store.{Kvsm, Found}
use elinproxy.Kvsm.Reads.{get-swap}
use elinproxy.Kvsm.Invariant.{IsSound}
use elinproxy.Lsm.Store.{
  Lsm, after_write, with_mem, evict_all, on_evict_internal, retry_eviction_size,
}

-- The entry of a key that Get finds.
found_slot :
    {V : Type 0} (now : ℕ) (e : Entry V) (slot : Option (Option V)) (v : V) (x : Bool)
    → (e.slot ≡ slot)
    → Store.read_entry now e ≡ some (record { value = some v; is_expired = x; ok = true })
    → e.slot ≡ some (some v)
unfolding Store.read_entry get_value
found_slot {V} now e none v x at r =
    let read : Store.read_entry now e ≡ none = rw (at, Store.read_entry) refl in cc
found_slot {V} now e (some u) v x at r =
    let f : Found V = record { value = u; is_expired = expired now e; ok = true } in
    let read : Store.read_entry now e ≡ some f = rw (at, Store.read_entry) refl in
    let same : f ≡ record { value = some v; is_expired = x; ok = true } =
      some-injective f _ (sym read ∙ r) in
    at ∙ ap some (ap (λ (y : Found V). y.value) same)

found_entry :
    {V : Type 0} (now : ℕ) (h : Ptr → Entry V) (o : Option Ptr) (v : V) (x : Bool)
    → Store.read_at now h o ≡ some (record { value = some v; is_expired = x; ok = true })
    → (a : Ptr) × (o ≡ some a) × ((h a).slot ≡ some (some v))
unfolding Store.read_at
found_entry now h none v x r =
    let no : false ≡ true = ap (λ (f : Found _). f.ok) (some-injective _ _ r) in cc
found_entry now h (some a) v x r = (a, refl, found_slot now (h a) (h a).slot v x refl r)

get_found :
    {V : Type 0} (now key : ℕ) (kv : Kvsm V) (v : V) (x : Bool)
    → Store.get now key kv ≡ some (record { value = some v; is_expired = x; ok = true })
    → (a : Ptr) × (lookup key kv.items ≡ some a) × ((kv.heap a).slot ≡ some (some v))
unfolding Store.get
get_found now key kv v x r = found_entry now kv.heap (lookup key kv.items) v x r

-- The call of onEvicted for an item leaves the others and the table.
evict_one :
    (d : Lsm) (p q : Ptr)
    → q ≢ p
    → ((on_evict_internal (some p) d).0.mem ≡ d.mem)
      × ((on_evict_internal (some p) d).0.objects q ≡ d.objects q)
unfolding on_evict_internal
evict_one d p q apart = elim (Bool-cases ((d.objects p).in_use == 0)) [
  | inl t ↦ rw (t, on_evict_internal) (refl, rw (==_ne q p apart) refl)
  | inr f ↦ elim (Bool-cases (ltb (length d.retry_eviction_ch) retry_eviction_size)) [
    | inl t ↦ rw (f, on_evict_internal) (rw (t) (refl, refl))
    | inr g ↦ rw (f, on_evict_internal) (rw (g) (refl, refl))
  ]
]

evict_other :
    (d : Lsm) (p q : Ptr) (xs : List (Option Ptr))
    → (xs ≡ some p ∷ []) ⊎ (xs ≡ [])
    → q ≢ p
    → ((evict_all xs d).mem ≡ d.mem) × ((evict_all xs d).objects q ≡ d.objects q)
unfolding evict_all
evict_other d p q xs (inl e) apart = rw e (evict_one d p q apart)
evict_other d p q xs (inr e) apart = rw e (refl, refl)

-- What the table evicts when an item takes the place of another one.
evicted_one :
    (b : Bool) (p : Ptr) (before xs : List (Option Ptr))
    → before ≡ []
    → xs ≡ (if b then before ++ some p ∷ [] else before)
    → (xs ≡ some p ∷ []) ⊎ (xs ≡ [])
evicted_one true p before xs calm e = inl (e ∙ ap (λ l. l ++ some p ∷ []) calm)
evicted_one false p before xs calm e = inr (e ∙ calm)

get_evicted :
    (now k : ℕ) (m : Kvsm Ptr) → Store.get now k (record m { evicted = [] }) ≡ Store.get now k m
unfolding Store.get
get_evicted now k m = refl

-- After afterWrite the new item stands under the key at which the old one was.
pub after_write-found :
    {queued : ℕ → List Ptr} (c : Lsm) (sound : IsSound queued c.mem) (e p q : Ptr) (ttl at : ℕ)
    → c.mem.evicted ≡ []
    → q ≢ p
    → (x : Bool)
    → Store.get at (c.objects q).key c.mem
      ≡ some (record { value = some p; is_expired = x; ok = true })
    → (c' : Lsm) × (after_write e q ttl at c ≡ some c')
      × ((now : ℕ)
          → (y : Bool) × (Store.get now (c.objects q).key c'.mem
              ≡ some (record { value = some q; is_expired = y; ok = true })))
      × (c'.objects q ≡ c.objects q)
unfolding after_write with_mem
after_write-found c sound e p q ttl at calm apart x here =
    let k = (c.objects q).key in
    let (a, there, full) = get_found at k c.mem p x here in
    let (m, swapped, evicted, found) = get-swap sound e k a (some p) (some q) ttl at there full in
    let d = record c { mem = record m { evicted = [] } } in
    let which = evicted_one c.mem.has_callback p c.mem.evicted m.evicted calm evicted in
    let (same, kept) = evict_other d p q m.evicted which apart in
    (
      with_mem m c,
      ap (λ o. o >>= λ y. some (with_mem y c)) swapped,
      λ now. (
        expired now (c.mem.heap a),
        ap (Store.get now k) same ∙ get_evicted now k m ∙ found now k ∙ rw (==_self k) refl,
      ),
      kept,
    )
