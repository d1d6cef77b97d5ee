-- ===== src/Kvsm/Reachable.antt =====
-- Every schedule of the calls of lsm/kvsm/kvsm.go and of the steps of its worker.
use elinproxy.Prelude.{
  ℕ, ◌≡◌, ◌≢◌, true, refl, ap, sym, ◌∙◌, subst, Option, none, some, List, [], arith, Option-cases,
  inl, inr,
}
use elinproxy.Prelude.Assoc.{lookup, total}
use elinproxy.Kvsm.Entry.{Ptr, null, Heap, expired}
use elinproxy.Kvsm.Store.{Kvsm, Found, new, set_on_evicted, set, swap, remove_by_key, get, read_at}
use elinproxy.Kvsm.Reads.{missing}
use elinproxy.Kvsm.Worker.{ok, receive, tick}
use elinproxy.Kvsm.Invariant.{IsSound, set-IsSound, swap-IsSound, remove_by_key-IsSound}
use elinproxy.Kvsm.Invariant.Worker.{Sound, Ends, receive-Sound}
use elinproxy.Kvsm.Invariant.Tick.{tick-Visited}

module _ {V : Type 0} where
  -- A table that some schedule leads to. The pool hands out an entry that is not nil and whose
  -- fields `putEntry` cleared.
  pub data Reachable : Kvsm V → Type 0 where
    start : (h : Heap V) → Reachable (new h)
    callback_set : (kv : Kvsm V) → Reachable kv → Reachable (set_on_evicted kv)
    value_set :
        (kv : Kvsm V) (e : Ptr) (k : ℕ) (v : Option V) (ttl now : ℕ)
        → e ≢ null
        → (kv.heap e).key ≡ none
        → Reachable kv
        → Reachable (set e k v ttl now kv)
    swapped :
        (kv kv' : Kvsm V) (e : Ptr) (k : ℕ) (v : Option V) (ttl now : ℕ)
        → e ≢ null
        → (kv.heap e).key ≡ none
        → swap e k v ttl now kv ≡ some kv'
        → Reachable kv
        → Reachable kv'
    removed : (kv : Kvsm V) (k : ℕ) → Reachable kv → Reachable (remove_by_key k kv)
    received : (kv kv' : Kvsm V) → receive kv ≡ ok kv' → Reachable kv → Reachable kv'
    ticked : (kv kv' : Kvsm V) (now : ℕ) → tick now kv ≡ ok kv' → Reachable kv → Reachable kv'

  pub new-IsSound : (h : Heap V) → IsSound (λ k. []) (new h)
  unfolding new lookup total
  new-IsSound h = record {
    keyed = λ k p found. cc;
    queue = λ k. record { forward = refl; ends = refl; counted = refl };
    live = λ k a i. cc;
    apart = λ j k a i i'. cc;
    waiting = λ a i. cc;
    distinct = tt;
    counted = refl;
  }

  callback-Sound : (kv : Kvsm V) → Sound kv → Sound (set_on_evicted kv)
  unfolding set_on_evicted
  callback-Sound kv (queued, w) = (
    queued,
    record {
      keyed = w.keyed;
      queue = w.queue;
      live = w.live;
      apart = w.apart;
      waiting = w.waiting;
      distinct = w.distinct;
      counted = w.counted;
    },
  )

  -- A run has one end, and a call one result.
  ok-inj : {a b : Kvsm V} → ok a ≡ ok b → a ≡ b
  ok-inj {a} e = ap (λ r. elim r [ ok x ↦ x | _ ↦ a ]) e

  some-inj : {a b : Kvsm V} → some a ≡ some b → a ≡ b
  some-inj {a} e = ap (λ r. elim r [ some x ↦ x | none ↦ a ]) e

  Reachable-Sound : (kv : Kvsm V) → Reachable kv → Sound kv
  Reachable-Sound kv (start h) = (λ k. [], new-IsSound h)
  Reachable-Sound kv (callback_set kv₀ r) = callback-Sound kv₀ (Reachable-Sound kv₀ r)
  Reachable-Sound kv (value_set kv₀ e k v ttl now ne free r) =
      let (queued, w) = Reachable-Sound kv₀ r in (queued, set-IsSound w e k v ttl now ne free)
  Reachable-Sound kv (swapped kv₀ kv' e k v ttl now ne free at r) =
      let (queued, w) = Reachable-Sound kv₀ r in
      let (kv″, at', w') = swap-IsSound w e k v ttl now ne free in
      subst Sound (some-inj (sym at' ∙ at)) (queued, w')
  Reachable-Sound kv (removed kv₀ k r) =
      let (queued, w) = Reachable-Sound kv₀ r in (queued, remove_by_key-IsSound w k)
  Reachable-Sound kv (received kv₀ kv' at r) =
      let (kv″, at', w') = receive-Sound kv₀ (Reachable-Sound kv₀ r) in
      subst Sound (ok-inj (sym at' ∙ at)) w'
  Reachable-Sound kv (ticked kv₀ kv' now at r) =
      let (kv″, at', v) = tick-Visited now kv₀ (Reachable-Sound kv₀ r) in
      subst Sound (ok-inj (sym at' ∙ at)) v.sound

  get_ends :
      {queued : ℕ → List Ptr} (kv : Kvsm V)
      → IsSound queued kv
      → (now k : ℕ) → (f : Found V) × (get now k kv ≡ some f)
  unfolding get read_at
  get_ends kv w now k = elim (Option-cases (lookup k kv.items)) [
    | inl e ↦ (missing, ap (read_at now kv.heap) e)
    | inr (p, e) ↦ elim (Option-cases (kv.heap p).slot) [
      | inl bad ↦ absurd (ground (arith, w.keyed k p e))
      | inr (v, full) ↦ (
        record { value = v; is_expired = expired now (kv.heap p); ok = true },
        rw (e, get) (rw (full, read_at) refl),
      )
    ]
  ]

  -- After any schedule of calls and worker steps from a new table, the table meets the invariant,
  -- and neither `Get`, nor the worker's receive, nor its pass at a tick panics, and both end.
  pub Reachable-safe :
      (kv : Kvsm V) (now k : ℕ)
      → Reachable kv
      → Sound kv
        × ((f : Found V) × (get now k kv ≡ some f))
        × Ends Sound (receive kv)
        × Ends Sound (tick now kv)
  Reachable-safe kv now k r =
      let (queued, w) = Reachable-Sound kv r in
      let (kv', at, v) = tick-Visited now kv (queued, w) in
      ((queued, w), get_ends kv w now k, receive-Sound kv (queued, w), (kv', at, v.sound))
