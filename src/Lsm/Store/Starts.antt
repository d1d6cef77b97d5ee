-- ===== src/Lsm/Store/Starts.antt =====
-- New, Reload and RemoveContents of lsm/lsm.go: how a store begins. What RemoveAll does to each name
-- of the directory is a parameter.
use elinproxy.Prelude.{
  ℕ, ◌<◌, ◌≡◌, refl, arith, Bool, true, false, Option, none, some, List, [], ◌∷◌, ◌++◌,
  if◌then◌else◌, Bool-cases, inl, inr,
}
use elinproxy.Text.{Bytes, none_of}
use elinproxy.Kvsm.Entry.{Ptr, Heap}
use elinproxy.Kvsm.Store
use elinproxy.Lsm.Store.{Lsm, Object}
use elinproxy.Lsm.Store.Schedule.{Used, Steps, Step, Counted, IsKept, Steps-IsKept}

-- lsm.Config, of which the code reads these fields.
pub record Config : Type 0 where
  pub min_lsm_ttl : ℕ
  pub dir : Bytes

-- The loop of RemoveContents over the names: what is left of them, and whether it returned nil.
unfoldable pub remove_names : (Bytes → Bool) → List Bytes → List Bytes × Bool
remove_names fails [] = ([], true)
remove_names fails (name ∷ names) =
    if fails name then (name ∷ names, false) else remove_names fails names

-- RemoveContents; a directory that cannot be opened or listed is `none`, and stays as it is.
unfoldable pub remove_contents : (Bytes → Bool) → Option (List Bytes) → Option (List Bytes) × Bool
unfolding remove_names
remove_contents fails none = (none, false)
remove_contents fails (some names) =
    let (left, fine) = remove_names fails names in (some left, fine)

-- New, but for the directory: the table is new and calls onEvictInternal.
unfoldable pub new : Config → Heap Ptr → (Ptr → Object) → Lsm
unfolding Store.new Store.set_on_evicted
new cfg heap objects = record {
  min_lsm_ttl = cfg.min_lsm_ttl;
  mem = Store.set_on_evicted (Store.new heap);
  objects = objects;
  retry_eviction_ch = [];
  logged = [];
}

-- Reload
unfoldable pub reload : Config → Lsm → Lsm
reload cfg c = record c { min_lsm_ttl = cfg.min_lsm_ttl }

-- RemoveContents removes the names in their order up to the first that fails; those from it on are
-- left.
pub remove_names_lem :
    (fails : Bytes → Bool) (names : List Bytes)
    → let (left, fine) = remove_names fails names in
      (fine ≡ none_of fails names)
      × (removed : List Bytes) × (names ≡ removed ++ left)
      × (none_of fails removed ≡ true)
      × (fine ≡ true → left ≡ [])
unfolding remove_names
remove_names_lem fails [] = (refl, [], refl, refl, λ h. refl)
remove_names_lem fails (name ∷ names) = elim (Bool-cases (fails name)) [
  | inl t ↦ rw t (refl, [], refl, refl, λ h. cc)
  | inr f ↦
      let (fine, removed, parts, none_fails, all) = remove_names_lem fails names in
      rw f (fine, name ∷ removed, (λ i. name ∷ parts i), rw f none_fails, all)
]

-- The same for the items of a store that is new, of which none is in use: in every schedule the use
-- counts are the uses that are not given back, and no step changes the key or the status of an item
-- in use, or hands it to its pool. Fewer than 2^64 uses of an item are open at a time.
pub new-IsKept :
    (cfg : Config) (heap : Heap Ptr) (objects : Ptr → Object)
    → ((p : Ptr) → (objects p).in_use ≡ 0)
    → {v w : Used} → Steps (record { store = new cfg heap objects; held = λ p. 0 }) v
    → Step v w
    → Counted w × ((p : Ptr) → 0 < v.held p → IsKept (v.store.objects p) (w.store.objects p))
unfolding new
new-IsKept cfg heap objects unused steps step =
    Steps-IsKept (λ p. (unused p, omega arith)) steps step
