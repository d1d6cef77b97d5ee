-- ===== src/Kvsm/Worker.antt =====
-- `workerExpiration` of lsm/kvsm/kvsm.go: the two cases of its select, each one step. The clock
-- stands still during a step. `k.Seconds()` is a float; its whole part, which `time.Duration(k)`
-- takes, is the number of whole seconds (exact for durations below 2^24 seconds).
use elinproxy.Prelude.{
  ℕ, zero, suc, ◌+◌, ◌*◌, ◌/◌, Bool, true, false, ◌||◌, Option, none, some, List, [], ◌∷◌, map, ltb,
  leb, ◌==◌, if◌then◌else◌,
}
use elinproxy.Prelude.Assoc.{lookup, insert}
use elinproxy.Kvsm.Entry.{Ptr, null, expired, get_value}
use elinproxy.Kvsm.LinkedList
use elinproxy.Kvsm.LinkedList.{LinkedList}
use elinproxy.Kvsm.Store.{Kvsm, ExpMsg, remove}

abbrev pub second : ℕ
second = 1000000000

-- A run ends, or panics; the fuel belongs to the model only.
pub data Run (A : Type 0) : Type 0 where
  ok : A → Run A
  panic : Run A
  out_of_fuel : Run A

infixl 5 ◌>>=◌
abbrev pub ◌>>=◌ : {A B : Type 0} → Run A → (A → Run B) → Run B
ok a >>= f = f a
panic >>= f = panic
out_of_fuel >>= f = out_of_fuel

abbrev pub or_panic : {A : Type 0} → Option A → Run A
or_panic none = panic
or_panic (some a) = ok a

abbrev pub is_nil : {V : Type 0} → Option V → Bool
is_nil none = true
is_nil (some v) = false

-- `sort.Float64s`
insert_sorted : ℕ → List ℕ → List ℕ
insert_sorted k [] = k ∷ []
insert_sorted k (j ∷ js) = if leb k j then k ∷ j ∷ js else j ∷ insert_sorted k js

unfoldable pub sort : List ℕ → List ℕ
unfolding insert_sorted
sort [] = []
sort (k ∷ ks) = insert_sorted k (sort ks)

abbrev pub list_at : List (ℕ × LinkedList) → ℕ → LinkedList
list_at m ttl = elim (lookup ttl m) [ none ↦ LinkedList.empty | some l ↦ l ]

module _ {V : Type 0} where
  -- `case e := <-kv.addLLCh`; with no message the worker waits
  unfoldable pub receive_msg : ExpMsg → Kvsm V → Run (Kvsm V)
  receive_msg m kv = do
    let ttl = if ltb m.ttl second then second else m.ttl
    (l, h) ← or_panic (LinkedList.add (list_at kv.lists ttl) kv.heap m.entry)
    ok (record kv { lists = insert ttl l kv.lists; heap = h })

  unfoldable pub receive_next : List ExpMsg → Kvsm V → Run (Kvsm V)
  unfolding receive_msg
  receive_next [] kv = ok kv
  receive_next (m ∷ rest) kv = receive_msg m (record kv { add_ch = rest })

  unfoldable pub receive : Kvsm V → Run (Kvsm V)
  unfolding receive_next
  receive kv = receive_next kv.add_ch kv

  -- `kv.listTTL[tkd].Remove(e)` and `kv.Remove(e)`
  unfoldable pub drop_entry : ℕ → LinkedList → Ptr → Kvsm V → Run (Kvsm V)
  drop_entry tkd l e kv = do
    (l', h) ← or_panic (LinkedList.remove l kv.heap e)
    or_panic (remove e (record kv { lists = insert tkd l' kv.lists; heap = h }))

  -- One round of the inner loop over a TTL list, at the entry that `Next` gave; `rest` is the
  -- next round.
  unfoldable pub round :
      ℕ → ℕ → LinkedList → (Ptr → Kvsm V → Run (Kvsm V)) → Ptr → Kvsm V → Run (Kvsm V)
  round now tkd l rest e kv = if e == null then ok kv else do
    p ← or_panic (get_value (kv.heap e))
    if is_nil p || expired now (kv.heap e) then drop_entry tkd l e kv >>= rest e else ok kv

  -- The inner loop; `e` is the entry of the round before, nil at first. A lookup that fails is a
  -- call on a nil list.
  unfoldable pub sweep : ℕ → ℕ → ℕ → Ptr → Kvsm V → Run (Kvsm V)
  sweep zero now tkd e kv = out_of_fuel
  sweep (suc fuel) now tkd e kv = do
    l ← or_panic (lookup tkd kv.lists)
    round now tkd l (sweep fuel now tkd) (LinkedList.next l kv.heap e) kv

  -- One key of the sorted list of keys. A key that is no whole number of seconds names no list, and
  -- is passed over with a log line.
  unfoldable pub visit : ℕ → ℕ → Kvsm V → Run (Kvsm V)
  unfolding sweep
  visit now k kv =
      let tkd = k / second * second in
      elim (lookup tkd kv.lists) [
        | none ↦ ok kv
        | some l ↦ if l.size == 0 then ok kv else sweep (l.size + 2) now tkd null kv
      ]

  unfoldable pub visit_all : ℕ → List ℕ → Kvsm V → Run (Kvsm V)
  unfolding visit
  visit_all now [] kv = ok kv
  visit_all now (k ∷ ks) kv = do kv' ← visit now k kv; visit_all now ks kv'

  -- `case <-move.C`
  unfoldable pub tick : ℕ → Kvsm V → Run (Kvsm V)
  unfolding sort visit_all
  tick now kv = visit_all now (sort (map (λ p. p.0) kv.lists)) kv
