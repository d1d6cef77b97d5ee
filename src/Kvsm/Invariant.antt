-- ===== src/Kvsm/Invariant.antt =====
-- The invariant of the table of lsm/kvsm/kvsm.go, and what the calls of its clients do to it.
pub mod Sweep
pub mod Worker
pub mod Pass
pub mod Tick
use mathlib.Core.List.{map-append}
use elinproxy.Prelude.{
  ℕ, ◌+◌, ◌%◌, length, length-append, ◌≡◌, ◌≢◌, refl, sym, ap, ◌∙◌, subst, Bool, true, false, ◌||◌,
  Option, none, some, List, [], ◌∷◌, ◌++◌, map, arith, ◌==◌, if◌then◌else◌, has, has-append, inl,
  inr, Bool-cases, Option-cases,
}
use elinproxy.Prelude.Assoc.{lookup, insert, erase, total, lookup-insert, lookup-erase}
use elinproxy.Kvsm.Entry.{Ptr, null, Entry, Heap, update, swap_value}
use elinproxy.Kvsm.LinkedList.Shape.{IsQueue, IsQueue-same}
use elinproxy.Kvsm.Store.{Kvsm, ExpMsg, int64_mod, set, swap, remove_by_key, call_evicted}
use elinproxy.Kvsm.Worker.{list_at}

abbrev pub is_some {ℓ} : {A : Type ℓ} → Option A → Bool
is_some none = false
is_some (some a) = true

-- An entry in use: it has a key and was given a value.
abbrev pub IsLive : {V : Type 0} → Entry V → Type 0
IsLive e = (is_some e.key ≡ true) × (is_some e.slot ≡ true)

abbrev pub pending : {V : Type 0} → Kvsm V → List Ptr
pending kv = map (λ m. m.entry) kv.add_ch

abbrev pub IsDistinct : List Ptr → Type 0
IsDistinct [] = Unit {0}
IsDistinct (x ∷ xs) = (has x xs ≡ false) × IsDistinct xs

-- `queued` says which entries stand in the list of each TTL.
pub record IsSound {V : Type 0} (queued : ℕ → List Ptr) (kv : Kvsm V) : Type 0 where
  pub keyed :
      (k p : ℕ)
      → lookup k kv.items ≡ some p
      → ((kv.heap p).key ≡ some k) × (p ≢ null) × (is_some (kv.heap p).slot ≡ true)
  pub queue : (k : ℕ) → IsQueue kv.heap (list_at kv.lists k) (queued k)
  pub live : (k a : ℕ) → has a (queued k) ≡ true → IsLive (kv.heap a)
  pub apart : (j k a : ℕ) → has a (queued j) ≡ true → has a (queued k) ≡ true → j ≡ k
  pub waiting :
      (a : ℕ)
      → has a (pending kv) ≡ true
      → IsLive (kv.heap a) × (a ≢ null) × ((k : ℕ) → has a (queued k) ≡ false)
  pub distinct : IsDistinct (pending kv)
  pub counted : kv.n ≡ (length kv.add_ch + total (λ l. l.size) kv.lists) % int64_mod

IsDistinct-concat :
    (xs : List Ptr) (e : Ptr) → has e xs ≡ false → IsDistinct xs → IsDistinct (xs ++ e ∷ [])
IsDistinct-concat [] e out d = (refl, tt)
IsDistinct-concat (x ∷ xs) e out d =
    (ground (arith, has-append x xs (e ∷ [])), IsDistinct-concat xs e (ground arith) d.1)

-- What `has` does not deny it confirms.
has-false : (a : Ptr) (xs : List Ptr) → ¬ (has a xs ≡ true) → has a xs ≡ false
has-false a xs h = elim (Bool-cases (has a xs)) [ inl e ↦ absurd (h e) | inr e ↦ e ]

module _ {V : Type 0} {queued : ℕ → List Ptr} {kv : Kvsm V} (w : IsSound queued kv) where
  -- An entry from the pool is in no list and in no message.
  pub not-has-queued : (e k : Ptr) → (kv.heap e).key ≡ none → has e (queued k) ≡ false
  not-has-queued e k free = has-false e (queued k) λ i. ground (arith, w.live k e i)

  pub not-has-pending : (e : Ptr) → (kv.heap e).key ≡ none → has e (pending kv) ≡ false
  not-has-pending e free = has-false e (pending kv) λ i. ground (arith, w.waiting e i)

  -- On a table that meets the invariant, `Set` with an entry from the pool keeps the invariant.
  pub set-IsSound :
      (e : Ptr) (k : ℕ) (v : Option V) (ttl now : ℕ)
      → e ≢ null
      → (kv.heap e).key ≡ none
      → IsSound queued (set e k v ttl now kv)
  unfolding set
  set-IsSound e k v ttl now ne free = record {
    keyed = λ j p found. ground (arith, lookup-insert k j e kv.items, w.keyed j p);
    queue = λ j.
        IsQueue-same kv.heap _ (list_at kv.lists j) (queued j)
          (λ a i. ground (arith, not-has-queued e j free)) (w.queue j);
    live = λ j a i. ground (arith, w.live j a i, not-has-queued e j free);
    apart = w.apart;
    waiting = λ a i.
        let split =
          ap (has a)
            (map-append (λ (m : ExpMsg). m.entry) kv.add_ch (record { ttl = ttl; entry = e } ∷ []))
          ∙ has-append a (pending kv) (e ∷ []) in
        elim (Bool-cases (a == e)) [
          | inl new ↦ (ground arith, ground arith, λ j. ground (arith, not-has-queued e j free))
          | inr other ↦
              let old = w.waiting a (ground (arith, split)) in (ground (arith, old), old.1, old.2)
        ];
    distinct =
        subst IsDistinct
          (sym
            (map-append (λ (m : ExpMsg). m.entry) kv.add_ch (record { ttl = ttl; entry = e } ∷ [])))
          (IsDistinct-concat (pending kv) e (not-has-pending e free) w.distinct);
    counted =
        omega (arith, w.counted, length-append kv.add_ch (record { ttl = ttl; entry = e } ∷ []));
  }

  -- Two keys never share an entry.
  pub keyed_once : (j k p : ℕ) → lookup j kv.items ≡ some p → lookup k kv.items ≡ some p → j ≡ k
  keyed_once j k p f g = ground (arith, w.keyed j p f, w.keyed k p g)

  -- On a table that meets the invariant, `RemoveByKey` keeps it, whether the key is there or not.
  pub remove_by_key-IsSound : (k : ℕ) → IsSound queued (remove_by_key k kv)
  unfolding remove_by_key
  remove_by_key-IsSound k = elim (Option-cases (lookup k kv.items)) [
    | inl e ↦ rw (e, remove_by_key) w
    | inr (p, e) ↦
        rw (e, remove_by_key)
          (record {
            keyed =
                λ j q found. ground (arith, lookup-erase k j kv.items, w.keyed j q, w.keyed k p e);
            queue = λ j.
                IsQueue-same kv.heap _ (list_at kv.lists j) (queued j) (λ a i. ground arith)
                  (w.queue j);
            live = λ j a i. ground (arith, w.live j a i);
            apart = w.apart;
            waiting = λ a i. let old = w.waiting a i in (ground (arith, old), old.1, old.2);
            distinct = w.distinct;
            counted = w.counted;
          })
  ]

  -- A call of `onEvicted` touches no entry.
  pub call_evicted-IsSound : (x : Option V) → IsSound queued (call_evicted x kv)
  unfolding call_evicted
  call_evicted-IsSound x = elim (Bool-cases kv.has_callback) [
    | inl e ↦ rw e (record {
      keyed = w.keyed;
      queue = w.queue;
      live = w.live;
      apart = w.apart;
      waiting = w.waiting;
      distinct = w.distinct;
      counted = w.counted;
    })
    | inr e ↦ simp e w
  ]

  -- A new value in an entry.
  refill-IsSound :
      (p : Ptr) (v : Option V)
      → IsSound queued
          (record kv { heap = update kv.heap p (record (kv.heap p) { slot = some v }) })
  refill-IsSound p v = record {
    keyed = λ j q found. ground (arith, w.keyed j q);
    queue = λ j.
        IsQueue-same kv.heap _ (list_at kv.lists j) (queued j) (λ a i. ground arith) (w.queue j);
    live = λ j a i. ground (arith, w.live j a i);
    apart = w.apart;
    waiting = λ a i. let old = w.waiting a i in (ground (arith, old), old.1, old.2);
    distinct = w.distinct;
    counted = w.counted;
  }

-- On a table that meets the invariant, `Swap` with an entry from the pool does not panic and keeps
-- the invariant, whether the key is there or not.
pub swap-IsSound :
    {V : Type 0} {queued : ℕ → List Ptr} {kv : Kvsm V} (w : IsSound queued kv) (e : Ptr) (k : ℕ)
    (v : Option V) (ttl now : ℕ)
    → e ≢ null
    → (kv.heap e).key ≡ none
    → (kv' : Kvsm V) × (swap e k v ttl now kv ≡ some kv') × IsSound queued kv'
unfolding swap
swap-IsSound {kv} w e k v ttl now ne free = elim (Option-cases (lookup k kv.items)) [
  | inl miss ↦ (set e k v ttl now kv, rw (miss, swap), set-IsSound w e k v ttl now ne free)
  | inr (p, hit) ↦ elim (Option-cases (kv.heap p).slot) [
    | inl bad ↦ absurd (ground (arith, w.keyed k p hit))
    | inr (old, full) ↦ (
      call_evicted old
          (record kv { heap = update kv.heap p (record (kv.heap p) { slot = some v }) }),
      rw (hit, swap) (rw (full, swap) refl),
      call_evicted-IsSound (refill-IsSound w p v) old,
    )
  ]
]
