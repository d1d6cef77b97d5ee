-- ===== src/Kvsm/Reads.antt =====
-- What `Get` sees after the other calls of lsm/kvsm/kvsm.go.
use elinproxy.Prelude.{
  ℕ, ◌+◌, ◌≡◌, ◌≢◌, refl, ap, ◌∙◌, Bool, true, false, ◌||◌, Option, none, some, List, [], ◌∷◌, ◌++◌,
  arith, ltb, ◌==◌, if◌then◌else◌, inl, inr, Bool-cases, Option-cases, suc, ==_self, ==_ne, ==_iff,
}
use elinproxy.Prelude.Assoc.{lookup, lookup-insert, lookup-erase}
use elinproxy.Kvsm.Entry.{Ptr, null, Entry, Heap, update, expired}
use elinproxy.Kvsm.LinkedList.{LinkedList}
use elinproxy.Kvsm.Store.{
  Kvsm, Found, set, get, swap, read_entry, read_at, remove_by_key, call_evicted, delete_key,
}
use elinproxy.Kvsm.Worker.{is_nil, sweep}
use elinproxy.Kvsm.Invariant.{IsSound, keyed_once}
use elinproxy.Kvsm.Invariant.Sweep.{dropped}
use elinproxy.Kvsm.Invariant.Worker.{Ends}
use elinproxy.Kvsm.Invariant.Pass.{sweep_drop}

abbrev pub missing : {V : Type 0} → Found V
missing = record { value = none; is_expired = true; ok = false }

-- A write to an entry is seen under its own key only.
read_at-update :
    {V : Type 0} (now : ℕ) (h : Heap V) (p : Ptr) (c : Entry V) (o : Option Ptr)
    → o ≢ some p
    → read_at now (update h p c) o ≡ read_at now h o
unfolding read_at
read_at-update now h p c none other = refl
read_at-update now h p c (some q) other =
    ap (λ b. read_entry now (if b then c else h q)) (==_ne q p (λ e. other (ap some e)))

read_at-update_self :
    {V : Type 0} (now : ℕ) (h : Heap V) (p : Ptr) (c : Entry V)
    → read_at now (update h p c) (some p) ≡ read_entry now c
unfolding read_at
read_at-update_self now h p c = rw (==_self p)

or_true : (a : Bool) {b : Bool} → b ≡ true → (a || b) ≡ true
or_true true h = refl
or_true false h = h

module _ {V : Type 0} {queued : ℕ → List Ptr} {kv : Kvsm V} (w : IsSound queued kv) where
  -- `Get` finds the value that `Set` put under the key, expired once the clock has passed the
  -- entry's end, and finds under every other key what it found before.
  pub get-set :
      (e : Ptr) (k : ℕ) (v : Option V) (ttl at now j : ℕ)
      → (kv.heap e).key ≡ none
      → get now j (set e k v ttl at kv) ≡ (
          if k == j
          then some (record { value = v; is_expired = ltb (at + ttl) now; ok = true })
          else get now j kv)
  unfolding get set
  get-set e k v ttl at now j free = rw (lookup-insert k j e kv.items) (elim (Bool-cases (k == j)) [
    | inl same ↦ rw same (read_at-update_self now kv.heap e _)
    | inr other ↦
        rw other
          (read_at-update now kv.heap e _ (lookup j kv.items) (λ q. ground (arith, w.keyed j e q)))
  ])

  -- After `RemoveByKey` the key is missing, and every other key is as before.
  pub get-remove_by_key :
      (k now j : ℕ)
      → get now j (remove_by_key k kv) ≡ (if k == j then some missing else get now j kv)
  unfolding get remove_by_key
  get-remove_by_key k now j = elim (Option-cases (lookup k kv.items)) [
    | inl e ↦
        rw (e, remove_by_key)
          (elim (Bool-cases (k == j)) [
            | inl same ↦ rw same (rw (← (==_iff k j).0 same) (rw e refl))
            | inr other ↦ rw other refl
          ])
    | inr (p, e) ↦
        rw (e, remove_by_key)
          (rw (lookup-erase k j kv.items) (elim (Bool-cases (k == j)) [
            | inl same ↦ rw same refl
            | inr other ↦ rw other (
                read_at-update now kv.heap p _ (lookup j kv.items)
                  (λ q. ground (arith, keyed_once w j k p q e)))
          ]))
  ]

  -- `Swap` on a key that is there changes its value and not its end, hands the old value to
  -- `onEvicted` if that is set, and other keys keep what they had.
  pub get-swap :
      (e k p : ℕ) (old v : Option V) (ttl at : ℕ)
      → lookup k kv.items ≡ some p
      → (kv.heap p).slot ≡ some old
      → (kv' : Kvsm V) × (swap e k v ttl at kv ≡ some kv')
        × (kv'.evicted ≡ (if kv.has_callback then kv.evicted ++ old ∷ [] else kv.evicted))
        × ((now j : ℕ)
            → get now j kv' ≡ (
                if k == j
                then some (record { value = v; is_expired = expired now (kv.heap p); ok = true })
                else get now j kv))
  unfolding get swap
  get-swap e k p old v ttl at hit full = (
    call_evicted old changed,
    rw (hit, swap) (rw (full, swap) refl),
    ground arith,
    λ now j. ap (λ m. read_at now m.0 (lookup j m.1)) same ∙ elim (Bool-cases (k == j)) [
      | inl hit_j ↦
          rw (← (==_iff k j).0 hit_j) (rw (==_self k, hit) (read_at-update_self now kv.heap p _))
      | inr other ↦ rw other (
          read_at-update now kv.heap p _ (lookup j kv.items)
            (λ q. ground (arith, keyed_once w j k p q hit)))
    ],
  )
    where
      changed : Kvsm V
      changed = record kv { heap = update kv.heap p (record (kv.heap p) { slot = some v }) }

      same :
          ◌≡◌ {A = Heap V × List (ℕ × Ptr)}
            ((call_evicted old changed).heap, (call_evicted old changed).items)
            (changed.heap, kv.items)
      same = ground arith

  -- When the entry at the front of a TTL list has expired and the worker passes over the list, `Get`
  -- finds nothing under that entry's key any more. So it is also where a later `Set` of the key
  -- stored another entry, which has not expired and which `Get` found before.
  pub expiry_drops_newer :
      (now tkd fuel k e q : ℕ) (xs : List Ptr) (l : LinkedList) (p r : Option V)
      → lookup tkd kv.lists ≡ some l
      → queued tkd ≡ e ∷ xs
      → (kv.heap e).key ≡ some k
      → (kv.heap e).slot ≡ some p
      → expired now (kv.heap e) ≡ true
      → lookup k kv.items ≡ some q
      → (kv.heap q).slot ≡ some r
      → expired now (kv.heap q) ≡ false
      → (get now k kv ≡ some (record { value = r; is_expired = false; ok = true }))
        × Ends (λ kv'. get now k kv' ≡ some missing) (sweep (suc (suc fuel)) now tkd null kv)
  unfolding get delete_key
  expiry_drops_newer now tkd fuel k e q xs l p r found at key full old hit full' newer = (
    rw hit (rw (full', newer, read_at) refl),
    (
      dropped tkd l e xs p kv,
      sweep_drop w now tkd found e xs at p full fuel (or_true (is_nil p) old),
      ap (λ m. read_at now (dropped tkd l e xs p kv).heap (lookup k (delete_key m kv.items))) key
          ∙ rw (lookup-erase k k kv.items, ==_self k) refl,
    ),
  )
