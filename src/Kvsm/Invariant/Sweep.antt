-- ===== src/Kvsm/Invariant/Sweep.antt =====
-- What the worker of lsm/kvsm/kvsm.go does to the table when it evicts an entry.
use elinproxy.Prelude.{
  ℕ, suc, ◌+◌, ◌-◌, ◌%◌, ◌≡◌, ◌≢◌, sym, subst, true, false, Option, none, some, List, [], ◌∷◌, ◌++◌,
  arith, ◌==◌, if◌then◌else◌, has, length, inl, inr, Bool-cases,
}
use elinproxy.Prelude.Assoc.{insert, total, total-insert, lookup-insert, lookup-erase}
use elinproxy.Kvsm.Entry.{Ptr, null, update, put_entry}
use elinproxy.Kvsm.LinkedList.{LinkedList, set_links}
use elinproxy.Kvsm.LinkedList.Shape.{IsQueue, IsQueue-same}
use elinproxy.Kvsm.LinkedList.Queue.{tail, remove_root}
use elinproxy.Kvsm.Store.{Kvsm, delete_key, remove, int64_mod}
use elinproxy.Kvsm.Worker.{ok, or_panic, list_at, drop_entry}
use elinproxy.Kvsm.Invariant.{IsSound}

pub list_at-insert :
    (k j : ℕ) (l : LinkedList) (m : List (ℕ × LinkedList))
    → list_at (insert k l m) j ≡ (if k == j then l else list_at m j)
list_at-insert k j l m = rw (lookup-insert k j l m, list_at) (ground arith)

-- What a write of one list does to the sum of the sizes.
pub total-insert_at :
    (k : ℕ) (l : LinkedList) (m : List (ℕ × LinkedList))
    → total (λ l. l.size) (insert k l m) + (list_at m k).size ≡ total (λ l. l.size) m + l.size
total-insert_at k l m = ground (arith, total-insert (λ l. l.size) k l m)

-- A statement about every list of the table, after one of them was written.
pub insert_cases :
    (P : LinkedList → List Ptr → Type 0) (k j : ℕ) (l : LinkedList) (m : List (ℕ × LinkedList))
    (xs : List Ptr) (queued : ℕ → List Ptr)
    → P l xs
    → ((k == j) ≡ false → P (list_at m j) (queued j))
    → P (list_at (insert k l m) j) (if k == j then xs else queued j)
insert_cases P k j l m xs queued here there = elim (Bool-cases (k == j)) [
  | inl e ↦
      subst (λ l'. P l' (if k == j then xs else queued j)) (sym (list_at-insert k j l m))
        (rw e here)
  | inr e ↦
      subst (λ l'. P l' (if k == j then xs else queued j)) (sym (list_at-insert k j l m))
        (rw e (there e))
]

-- The calls of `onEvicted` after an entry with value `p` was evicted.
abbrev pub noted : {V : Type 0} → Option V → Kvsm V → List (Option V)
noted p kv =
    if kv.has_callback
    then (elim p [ none ↦ kv.evicted | some v ↦ kv.evicted ++ some v ∷ [] ])
    else kv.evicted

-- The table after the entry `e` went out of the list `l` of the TTL `tkd`, `xs` following it.
abbrev pub dropped : {V : Type 0} → ℕ → LinkedList → Ptr → List Ptr → Option V → Kvsm V → Kvsm V
dropped tkd l e xs p kv =
    let h = update kv.heap e (set_links null null (kv.heap e)) in
    record kv {
      items = delete_key (kv.heap e).key kv.items;
      n = (kv.n + int64_mod - 1) % int64_mod;
      evicted = noted p kv;
      lists = insert tkd (tail l (kv.heap e).next xs) kv.lists;
      heap = update h e (put_entry (h e));
    }

module _ {V : Type 0} where
  remove_lem :
      (e : Ptr) (kv : Kvsm V) (p : Option V)
      → (kv.heap e).slot ≡ some p
      → remove e kv
        ≡ some (record kv {
          items = delete_key (kv.heap e).key kv.items;
          n = (kv.n + int64_mod - 1) % int64_mod;
          evicted = noted p kv;
          heap = update kv.heap e (put_entry (kv.heap e));
        })
  unfolding remove put_entry
  remove_lem e kv none h = ground arith
  remove_lem e kv (some v) h = ground arith

  pub drop_entry_lem :
      (tkd : ℕ) (l : LinkedList) (e : Ptr) (xs : List Ptr) (kv : Kvsm V) (p : Option V)
      → IsQueue kv.heap l (e ∷ xs)
      → (kv.heap e).slot ≡ some p
      → drop_entry tkd l e kv ≡ ok (dropped tkd l e xs p kv)
  unfolding drop_entry
  drop_entry_lem tkd l e xs kv p q full =
      rw ((remove_root l kv.heap e xs q).0, or_panic)
        (ground (arith, remove_lem e after p (ground arith)))
    where
      after : Kvsm V
      after = record kv {
        lists = insert tkd (tail l (kv.heap e).next xs) kv.lists;
        heap = update kv.heap e (set_links null null (kv.heap e));
      }

size-tail_eq :
    (l : LinkedList) (p : Ptr) (xs : List Ptr)
    → l.size ≡ suc (length xs)
    → (tail l p xs).size + 1 ≡ l.size
size-tail_eq l p [] e = omega arith
size-tail_eq l p (x ∷ xs) e = omega arith

-- With the list of `tkd` at `e ∷ xs`, and `xs` afterwards.
module _ {V : Type 0} {queued : ℕ → List Ptr} {kv : Kvsm V} (w : IsSound queued kv) (tkd : ℕ)
    (e : Ptr) (xs : List Ptr) (p : Option V) (at : queued tkd ≡ e ∷ xs)
    (full : (kv.heap e).slot ≡ some p) (k₀ : ℕ) (key : (kv.heap e).key ≡ some k₀) where
  abbrev pub l : LinkedList
  l = list_at kv.lists tkd

  abbrev pub left : ℕ → List Ptr
  left j = if tkd == j then xs else queued j

  head : IsQueue kv.heap l (e ∷ xs)
  head = subst (IsQueue kv.heap l) at (w.queue tkd)

  listed : has e (queued tkd) ≡ true
  listed = ground arith

  has-left : (j a : ℕ) → has a (left j) ≡ true → (has a (queued j) ≡ true) × (a ≢ e)
  has-left j a i = elim (Bool-cases (tkd == j)) [
    | inl same ↦ ground (arith, head)
    | inr other ↦ ground (arith, head, w.apart tkd j e)
  ]

  counted :
      (kv.n + int64_mod - 1) % int64_mod
      ≡ (length kv.add_ch + total (λ m. m.size) (insert tkd (tail l (kv.heap e).next xs) kv.lists))
        % int64_mod
  counted = omega (
    arith,
    w.counted,
    total-insert_at tkd (tail l (kv.heap e).next xs) kv.lists,
    size-tail_eq l (kv.heap e).next xs head.counted,
  )

  pub dropped-IsSound : IsSound left (dropped tkd l e xs p kv)
  unfolding delete_key put_entry
  dropped-IsSound = record {
    keyed = λ j q found. ground (arith, lookup-erase k₀ j kv.items, w.keyed j q, key);
    queue = λ j.
        insert_cases (IsQueue _) tkd j (tail l (kv.heap e).next xs) kv.lists xs queued
          (IsQueue-same _ _ _ xs (λ a i. ground (arith, head.forward))
            (remove_root l kv.heap e xs head).1)
          (λ other.
            IsQueue-same kv.heap _ _ (queued j) (λ a i. ground (arith, w.apart tkd j e listed))
              (w.queue j));
    live = λ j a i. let old = has-left j a i in ground (arith, w.live j a old.0, old.1);
    apart = λ j k a i i'. w.apart j k a (has-left j a i).0 (has-left k a i').0;
    waiting = λ a i.
        let old = w.waiting a i in
        (
          ground (arith, old, old.2 tkd, listed),
          old.1,
          λ j. ground (arith, old.2 j, old.2 tkd, has-left j a),
        );
    distinct = w.distinct;
    counted = counted;
  }
