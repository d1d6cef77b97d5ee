-- ===== src/Kvsm/Entry.antt =====
-- lsm/kvsm/entry.go. Entries live on a heap, since the table, the channel and the TTL lists share
-- them by pointer. A pointer is a number and 0 is nil; every other pointer is an entry, and an
-- access through nil panics (`none`). The clock is an argument, in nanoseconds.
pub mod Pooled
use elinproxy.Prelude.{ℕ, Bool, Option, none, some, ltb, ◌==◌, if◌then◌else◌, ◌>>=◌}

abbrev pub Ptr : Type 0
Ptr = ℕ

abbrev pub null : Ptr
null = 0

-- `slot` is the unsafe pointer `p`: `none` is nil, and `some none` points to a nil interface, as
-- `noContentPointer` does. `key` is an interface, nil after `putEntry`.
pub record Entry (V : Type 0) : Type 0 where
  pub key : Option ℕ
  pub expire_at : ℕ
  pub slot : Option (Option V)
  pub prev : Ptr
  pub next : Ptr

module _ {V : Type 0} where
  unfoldable pub expired : ℕ → Entry V → Bool
  expired now e = ltb e.expire_at now

  -- Value
  unfoldable pub put_value : Option V → Entry V → Entry V
  put_value v e = record e { slot = some v }

  -- ValueReset
  unfoldable pub value_reset : Entry V → Entry V
  value_reset e = record e { slot = some none }

  -- GetValue dereferences `p`, so it panics on an entry that never had a value.
  unfoldable pub get_value : Entry V → Option (Option V)
  get_value e = e.slot

  -- SwapValue
  unfoldable pub swap_value : Option V → Entry V → Option (Option V × Entry V)
  swap_value v e = do old ← e.slot; some (old, record e { slot = some v })

  -- putEntry, but for the return to the pool
  unfoldable pub put_entry : Entry V → Entry V
  unfolding value_reset
  put_entry e = record (value_reset e) { prev = null; next = null; key = none; expire_at = 0 }

abbrev pub Heap : Type 0 → Type 0
Heap V = Ptr → Entry V

abbrev pub update : {V : Type 0} → Heap V → Ptr → Entry V → Heap V
update h p e a = if a == p then e else h a

-- `*p`
unfoldable pub load : {V : Type 0} → Heap V → Ptr → Option (Entry V)
load h p = if p == null then none else some (h p)

-- A write to fields of `*p`.
unfoldable pub modify : {V : Type 0} → Heap V → Ptr → (Entry V → Entry V) → Option (Heap V)
modify h p f = if p == null then none else some (update h p (f (h p)))
