-- ===== src/Kvsm/Invariant/Worker.antt =====
-- The case of the worker's select that receives a message (lsm/kvsm/kvsm.go).
use elinproxy.Prelude.{
  ℕ, ◌≡◌, ◌≢◌, refl, ap, ◌∙◌, subst, true, false, List, [], ◌∷◌, ◌++◌, map, arith, ltb, ◌==◌,
  if◌then◌else◌, has, has-append, length, length-append, ◌⊎◌,
}
use elinproxy.Prelude.Assoc.{insert}
use elinproxy.Kvsm.Entry.{Ptr, null, Heap}
use elinproxy.Kvsm.LinkedList.{LinkedList}
use elinproxy.Kvsm.LinkedList.Shape.{IsQueue, IsQueue-same}
use elinproxy.Kvsm.LinkedList.Queue.{Added, add-Added}
use elinproxy.Kvsm.Store.{Kvsm, ExpMsg}
use elinproxy.Kvsm.Worker.{Run, ok, or_panic, list_at, second, receive, receive_msg, receive_next}
use elinproxy.Kvsm.Invariant.{IsSound, IsLive, IsDistinct, pending}
use elinproxy.Kvsm.Invariant.Sweep.{insert_cases, total-insert_at}

-- A table that meets the invariant, for some assignment of entries to TTL lists.
abbrev pub Sound : {V : Type 0} → Kvsm V → Type 0
Sound kv = (queued : ℕ → List Ptr) × IsSound queued kv

-- A run that ends, in a sound table that meets `P`.
abbrev pub Ends : {V : Type 0} → (Kvsm V → Type 0) → Run (Kvsm V) → Type 0
Ends {V} P r = (kv' : Kvsm V) × (r ≡ ok kv') × P kv'

abbrev pub clamped : ℕ → ℕ
clamped ttl = if ltb ttl second then second else ttl

module _ {V : Type 0} (queued : ℕ → List Ptr) (kv : Kvsm V) (m : ExpMsg) (rest : List ExpMsg)
    (at : kv.add_ch ≡ m ∷ rest) (w : IsSound queued kv) (ttl : ℕ) where
  abbrev joined : ℕ → List Ptr
  joined j = if ttl == j then queued ttl ++ m.entry ∷ [] else queued j

  pend : pending kv ≡ m.entry ∷ map (λ (n : ExpMsg). n.entry) rest
  pend = ap (map (λ (n : ExpMsg). n.entry)) at

  -- the entry of the message is new to every list
  fresh : IsLive (kv.heap m.entry) × (m.entry ≢ null) × ((k : ℕ) → has m.entry (queued k) ≡ false)
  fresh = w.waiting m.entry (ground (arith, pend))

  has-joined :
      (j a : ℕ) → has a (joined j) ≡ true → ((a ≡ m.entry) × (ttl ≡ j)) ⊎ (has a (queued j) ≡ true)
  has-joined j a i = ground (arith, has-append a (queued ttl) (m.entry ∷ []))

  not-has-joined :
      (j a : ℕ) → a ≢ m.entry → ((k : ℕ) → has a (queued k) ≡ false) → has a (joined j) ≡ false
  not-has-joined j a ne out =
      ground (arith, has-append a (queued ttl) (m.entry ∷ []), out ttl, out j)

  received-IsSound :
      (l : LinkedList) (h : Heap V)
      → Added (list_at kv.lists ttl) l kv.heap h m.entry (queued ttl)
      → IsSound joined (record kv { add_ch = rest; lists = insert ttl l kv.lists; heap = h })
  received-IsSound l h a = record {
    keyed = λ j q found. ground (arith, w.keyed j q, a.kept q);
    queue = λ j.
        insert_cases (IsQueue h) ttl j l kv.lists (queued ttl ++ m.entry ∷ []) queued a.queue
          (λ other.
            IsQueue-same kv.heap h (list_at kv.lists j) (queued j)
              (λ b i. ground (
                arith,
                a.same b,
                has-append b (queued ttl) (m.entry ∷ []),
                w.apart ttl j b,
                fresh.2 j,
              ))
              (w.queue j));
    live = λ j b i. ground (arith, has-joined j b, w.live j b, fresh.0, a.kept b);
    apart = λ j k b i i'.
        ground (arith, has-joined j b, has-joined k b, w.apart j k b, fresh.2 j, fresh.2 k);
    waiting = λ b i.
        let old = w.waiting b (ground (arith, pend)) in
        let other : b ≢ m.entry = λ e. ground (arith, subst IsDistinct pend w.distinct) in
        (ground (arith, old.0, a.kept b), old.1, λ k. not-has-joined k b other old.2);
    distinct = (subst IsDistinct pend w.distinct).1;
    counted = omega (
      arith,
      w.counted,
      ap length at,
      a.queue.counted,
      (w.queue ttl).counted,
      length-append (queued ttl) (m.entry ∷ []),
      total-insert_at ttl l kv.lists,
    );
  }

module _ {V : Type 0} where
  -- A message puts its entry at the end of the list of its TTL.
  receive_msg-Sound :
      (kv : Kvsm V) (m : ExpMsg) (rest : List ExpMsg)
      → kv.add_ch ≡ m ∷ rest
      → Sound kv
      → Ends Sound (receive_msg m (record kv { add_ch = rest }))
  unfolding receive_msg
  receive_msg-Sound kv m rest at (queued, w) =
      let ttl = clamped m.ttl in
      let new = fresh queued kv m rest at w ttl in
      let (l, h, a) =
        add-Added (list_at kv.lists ttl) kv.heap m.entry (queued ttl) new.1 (new.2 ttl)
          (w.queue ttl) in
      (
        record kv { add_ch = rest; lists = insert ttl l kv.lists; heap = h },
        rw (a.returns, or_panic),
        (joined queued kv m rest at w ttl, received-IsSound queued kv m rest at w ttl l h a),
      )

  -- On a table that meets the invariant, the worker's receive ends without a panic and keeps the
  -- invariant.
  pub receive-Sound : (kv : Kvsm V) → Sound kv → Ends Sound (receive kv)
  unfolding receive
  receive-Sound kv w = go kv.add_ch refl
    where
      go : (ms : List ExpMsg) → kv.add_ch ≡ ms → Ends Sound (receive kv)
      go [] e = (kv, ap (λ ms. receive_next ms kv) e, w)
      go (m ∷ rest) e =
          let (kv', r, w') = receive_msg-Sound kv m rest e w in
          (kv', ap (λ ms. receive_next ms kv) e ∙ r, w')
