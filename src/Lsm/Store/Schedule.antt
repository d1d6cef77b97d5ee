-- ===== src/Lsm/Store/Schedule.antt =====
-- Every schedule of the calls of lsm/lsm.go, with the uses that clients have not given back.
use elinproxy.Prelude.{
  ℕ, ◌+◌, ◌-◌, ◌%◌, ◌<◌, ◌≡◌, refl, sym, ap, ◌∙◌, subst, inl, inr, Bool, none, some, arith,
  if◌then◌else◌, ◌==◌, Bool-cases, ==_iff,
}
use elinproxy.Kvsm.Entry.{Ptr}
use elinproxy.Kvsm.Store.{Kvsm, int64_mod}
use elinproxy.Lsm.Store.{
  Lsm, Object, set_object, retry_eviction, with_mem, set, get, hand_out, delete, done,
}
use elinproxy.Lsm.Store.Spared.{Spared, with_mem-Spared, retry-Spared, set-objects, get_cases}

-- `held` counts the uses of an item that Get handed out and that Done has not given back.
pub record Used : Type 0 where
  pub store : Lsm
  pub held : Ptr → ℕ

abbrev pub count : Ptr → ℕ → (Ptr → ℕ) → Ptr → ℕ
count p n held = λ q. if q == p then n else held q

-- A call of the store, or a round of its goroutines. `table` is any step of the table, with the calls
-- of onEvicted that it makes, and `makes` is a new item, or one from its pool, that is filled.
pub data Step (u : Used) : Used → Type 0 where
  sets : (e p : Ptr) (ttl now : ℕ) → Step u (record u { store = set e p ttl now u.store })
  deletes : (key : ℕ) → Step u (record u { store = delete key u.store })
  table : (m : Kvsm Ptr) → Step u (record u { store = with_mem m u.store })
  retries : Step u (record u { store = retry_eviction u.store })
  misses :
      (now key : ℕ) (c : Lsm)
      → get now key u.store ≡ some (c, none)
      → Step u (record u { store = c })
  gets :
      (now key : ℕ) (c : Lsm) (p : Ptr) (expired : Bool)
      → get now key u.store ≡ some (c, some (p, expired))
      → u.held p + 1 < int64_mod
      → Step u (record { store = c; held = count p (u.held p + 1) u.held })
  makes :
      (p : Ptr) (o : Object)
      → u.held p ≡ 0
      → o.in_use ≡ 0
      → Step u (record u { store = set_object p o u.store })
  gives_back :
      (p : Ptr)
      → 0 < u.held p
      → Step u (record { store = done p u.store; held = count p (u.held p - 1) u.held })

-- The use count of each item is the number of its uses.
abbrev pub Counted : Used → Type 0
Counted u = (p : Ptr) → ((u.store.objects p).in_use ≡ u.held p) × (u.held p < int64_mod)

-- The item is still the same one, and in its pool or not as before.
abbrev pub IsKept : Object → Object → Type 0
IsKept o o' = (o'.key ≡ o.key) × (o'.status_code ≡ o.status_code) × (o'.pooled ≡ o.pooled)

IsKept-eq : (o o' : Object) → o' ≡ o → IsKept o o'
IsKept-eq o o' e = (
  ap (λ (x : Object). x.key) e,
  ap (λ (x : Object). x.status_code) e,
  ap (λ (x : Object). x.pooled) e,
)

-- What a step does to the items.
abbrev Outcome : Used → Used → Type 0
Outcome u v =
    Counted v × ((p : Ptr) → 0 < u.held p → IsKept (u.store.objects p) (v.store.objects p))

-- A step that spares the items in use.
spares :
    (u : Used) (c : Lsm)
    → Counted u
    → ((p : Ptr) → Spared (u.store.objects p) (c.objects p))
    → Outcome u (record u { store = c })
spares u c counted spared = (
  λ p. ((spared p).0 ∙ (counted p).0, (counted p).1),
  λ p more. elim ((spared p).1) [
    | inl e ↦ IsKept-eq (u.store.objects p) (c.objects p) e
    | inr zero ↦ absurd (omega (arith, zero, (counted p).0))
  ],
)

same_objects :
    (u : Used) (c : Lsm)
    → Counted u
    → c.objects ≡ u.store.objects
    → Outcome u (record u { store = c })
same_objects u c counted e =
    spares u c counted
      (λ p. (ap (λ (f : Ptr → Object). (f p).in_use) e, inl (ap (λ (f : Ptr → Object). f p) e)))

-- A step that writes one item.
writes-Outcome :
    (u : Used) (p : Ptr) (o : Object) (n : ℕ)
    → Counted u
    → o.in_use ≡ n
    → n < int64_mod
    → IsKept (u.store.objects p) o
    → Outcome u (record { store = set_object p o u.store; held = count p n u.held })
writes-Outcome u p o n counted used small kept = (
  λ q. elim (Bool-cases (q == p)) [
    | inl same ↦ rw same (used, small)
    | inr other ↦ rw other (counted q)
  ],
  λ q more. elim (Bool-cases (q == p)) [
    | inl same ↦
        rw same (subst (λ x. IsKept (u.store.objects x) o) (sym ((==_iff q p).0 same)) kept)
    | inr other ↦ rw other (refl, refl, refl)
  ],
)

gets-Outcome :
    (u : Used) (p : Ptr)
    → Counted u
    → u.held p + 1 < int64_mod
    → Outcome u (record {
      store = set_object p (hand_out (u.store.objects p)) u.store;
      held = count p (u.held p + 1) u.held;
    })
unfolding hand_out
gets-Outcome u p counted small =
    writes-Outcome u p (hand_out (u.store.objects p)) (u.held p + 1) counted
      (omega (arith, (counted p).0)) small (refl, refl, refl)

gives_back-Outcome :
    (u : Used) (p : Ptr)
    → Counted u
    → 0 < u.held p
    → Outcome u (record { store = done p u.store; held = count p (u.held p - 1) u.held })
unfolding done
gives_back-Outcome u p counted some_use =
    writes-Outcome u p
      (record (u.store.objects p) {
        in_use = ((u.store.objects p).in_use + int64_mod - 1) % int64_mod;
      })
      (u.held p - 1) counted (omega (arith, (counted p).0, (counted p).1))
      (omega (arith, (counted p).1)) (refl, refl, refl)

makes-Outcome :
    (u : Used) (p : Ptr) (o : Object)
    → Counted u
    → u.held p ≡ 0
    → o.in_use ≡ 0
    → Outcome u (record u { store = set_object p o u.store })
makes-Outcome u p o counted unused fresh = (
  λ q. elim (Bool-cases (q == p)) [
    | inl same ↦ rw same (
      fresh ∙ sym unused ∙ ap u.held (sym ((==_iff q p).0 same)),
      omega (arith, unused, ap u.held ((==_iff q p).0 same)),
    )
    | inr other ↦ rw other (counted q)
  ],
  λ q more. elim (Bool-cases (q == p)) [
    | inl same ↦ absurd (omega (arith, unused, ap u.held ((==_iff q p).0 same)))
    | inr other ↦ rw other (refl, refl, refl)
  ],
)

Step-Outcome : {u v : Used} → Counted u → Step u v → Outcome u v
unfolding delete
Step-Outcome {u} counted (sets e p ttl now) =
    same_objects u (set e p ttl now u.store) counted (set-objects e p ttl now u.store)
Step-Outcome {u} counted (deletes key) = same_objects u (delete key u.store) counted refl
Step-Outcome {u} counted (table m) =
    spares u (with_mem m u.store) counted (with_mem-Spared m u.store)
Step-Outcome {u} counted retries = spares u (retry_eviction u.store) counted (retry-Spared u.store)
Step-Outcome {u} counted (misses now key c e) = elim (get_cases now key u.store c none e) [
  | inl (same, o) ↦ same_objects u c counted (ap (λ (x : Lsm). x.objects) same)
  | inr (p, x, same, o) ↦ absurd (not_both o)
]
  where
    not_both : {A : Type 0} {y : A} → none ≡ some y → ⊥
    not_both h = cc
Step-Outcome {u} counted (gets now key c p expired e small) =
    elim (get_cases now key u.store c (some (p, expired)) e) [
      | inl (same, o) ↦ absurd (not_both o)
      | inr (q, x, same, o) ↦
          let is : q ≡ p = cc in
          subst
            (λ (d : Lsm). Outcome u (record { store = d; held = count p (u.held p + 1) u.held }))
            (sym (same ∙ ap (λ y. set_object y (hand_out (u.store.objects y)) u.store) is))
            (gets-Outcome u p counted small)
    ]
  where
    not_both : {A : Type 0} {y : A} → some y ≡ none → ⊥
    not_both h = cc
Step-Outcome {u} counted (makes p o unused fresh) = makes-Outcome u p o counted unused fresh
Step-Outcome {u} counted (gives_back p some_use) = gives_back-Outcome u p counted some_use

pub data Steps (u : Used) : Used → Type 0 where
  stop : Steps u u
  then_step : {v w : Used} → Steps u v → Step v w → Steps u w

Steps-Counted : {u v : Used} → Counted u → Steps u v → Counted v
Steps-Counted counted stop = counted
Steps-Counted counted (then_step steps step) = (Step-Outcome (Steps-Counted counted steps) step).0

-- In every schedule of calls, evictions, retries and steps of the table, from a store whose use counts
-- are the uses that are not given back, they remain so, and no step changes the key or the status of
-- an item in use, or hands it to its pool. Fewer than 2^64 uses of an item are open at a time.
pub Steps-IsKept :
    {u v w : Used}
    → Counted u
    → Steps u v
    → Step v w
    → Counted w × ((p : Ptr) → 0 < v.held p → IsKept (v.store.objects p) (w.store.objects p))
Steps-IsKept counted steps step = Step-Outcome (Steps-Counted counted steps) step
