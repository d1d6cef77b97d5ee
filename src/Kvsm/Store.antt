-- ===== src/Kvsm/Store.antt =====
-- lsm/kvsm/kvsm.go: the table, and the calls that its clients make. Each call is one step here: the
-- state is what the goroutines share, and a schedule is a sequence of calls. The clock is an
-- argument (nanoseconds; durations are not negative), and so is the entry that the pool hands out.
use elinproxy.Prelude.{
  ℕ, ◌+◌, ◌-◌, ◌%◌, ◌^◌, Bool, true, false, Option, none, some, List, [], ◌∷◌, ◌++◌, if◌then◌else◌,
  ◌>>=◌,
}
use elinproxy.Prelude.Assoc.{lookup, insert, erase}
use elinproxy.Kvsm.Entry.{
  Ptr, Entry, Heap, update, expired, put_value, value_reset, get_value, swap_value, put_entry,
}
use elinproxy.Kvsm.LinkedList.{LinkedList}

pub record ExpMsg : Type 0 where
  pub ttl : ℕ
  pub entry : Ptr

-- `n` is the bit pattern of the int64. `add_ch` holds the channel's buffer and behind it what the
-- blocked senders wait to send, oldest first. `evicted` lists the calls of `onEvicted`.
pub record Kvsm (V : Type 0) : Type 0 where
  pub items : List (ℕ × Ptr)
  pub n : ℕ
  pub add_ch : List ExpMsg
  pub has_callback : Bool
  pub evicted : List (Option V)
  pub lists : List (ℕ × LinkedList)
  pub heap : Heap V

abbrev pub int64_mod : ℕ
int64_mod = 2 ^ 64

-- What `Get` returns: the value, whether it expired, and whether the key is there.
pub record Found (V : Type 0) : Type 0 where
  pub value : Option V
  pub is_expired : Bool
  pub ok : Bool

-- `kv.items.Delete` of an interface: the nil key is in no table
unfoldable pub delete_key : Option ℕ → List (ℕ × Ptr) → List (ℕ × Ptr)
delete_key none m = m
delete_key (some k) m = erase k m

module _ {V : Type 0} where
  -- New and SetOnEvicted
  unfoldable pub new : Heap V → Kvsm V
  new h = record {
    items = [];
    n = 0;
    add_ch = [];
    has_callback = false;
    evicted = [];
    lists = [];
    heap = h;
  }

  unfoldable pub set_on_evicted : Kvsm V → Kvsm V
  set_on_evicted kv = record kv { has_callback = true }

  unfoldable pub len : Kvsm V → ℕ
  len kv = kv.n

  unfoldable pub call_evicted : Option V → Kvsm V → Kvsm V
  call_evicted x kv = if kv.has_callback then record kv { evicted = kv.evicted ++ x ∷ [] } else kv

  unfoldable pub set : Ptr → ℕ → Option V → ℕ → ℕ → Kvsm V → Kvsm V
  unfolding put_value
  set e k v ttl now kv = record kv {
    heap =
        update kv.heap e (put_value v (record (kv.heap e) { key = some k; expire_at = now + ttl }));
    items = insert k e kv.items;
    n = (kv.n + 1) % int64_mod;
    add_ch = kv.add_ch ++ (record { ttl = ttl; entry = e }) ∷ [];
  }

  unfoldable pub read_entry : ℕ → Entry V → Option (Found V)
  unfolding get_value expired
  read_entry now e = do
    v ← get_value e
    some (record { value = v; is_expired = expired now e; ok = true })

  unfoldable pub read_at : ℕ → Heap V → Option Ptr → Option (Found V)
  unfolding read_entry
  read_at now h none = some (record { value = none; is_expired = true; ok = false })
  read_at now h (some p) = read_entry now (h p)

  -- `none` is a panic: an entry in the table without a value
  unfoldable pub get : ℕ → ℕ → Kvsm V → Option (Found V)
  unfolding read_at
  get now k kv = read_at now kv.heap (lookup k kv.items)

  unfoldable pub swap : Ptr → ℕ → Option V → ℕ → ℕ → Kvsm V → Option (Kvsm V)
  unfolding set swap_value call_evicted
  swap e k v ttl now kv = elim (lookup k kv.items) [
    | none ↦ some (set e k v ttl now kv)
    | some p ↦ do
      (old, c) ← swap_value v (kv.heap p)
      some (call_evicted old (record kv { heap = update kv.heap p c }))
  ]

  -- The table forgets the key. The counter and the TTL list keep the entry, without its value.
  unfoldable pub remove_by_key : ℕ → Kvsm V → Kvsm V
  unfolding value_reset
  remove_by_key k kv = elim (lookup k kv.items) [
    | none ↦ kv
    | some p ↦ record kv {
      items = erase k kv.items;
      heap = update kv.heap p (record (value_reset (kv.heap p)) { expire_at = 0 });
    }
  ]

  -- `if p != nil { kv.onEvicted(p) }`
  unfoldable pub offer : Option V → Kvsm V → Kvsm V
  unfolding call_evicted
  offer none kv = kv
  offer (some v) kv = call_evicted (some v) kv

  unfoldable pub eviction : Ptr → Kvsm V → Option (Kvsm V)
  unfolding get_value offer put_entry
  eviction e kv = do
    kv' ← if kv.has_callback then (do p ← get_value (kv.heap e); some (offer p kv)) else some kv
    some (record kv' { heap = update kv'.heap e (put_entry (kv'.heap e)) })

  unfoldable pub remove : Ptr → Kvsm V → Option (Kvsm V)
  unfolding delete_key eviction
  remove e kv = eviction e (record kv {
    items = delete_key (kv.heap e).key kv.items;
    n = (kv.n + int64_mod - 1) % int64_mod;
  })
