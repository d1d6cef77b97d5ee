-- ===== src/Kvsm/LinkedList.antt =====
-- lsm/kvsm/list.go: the doubly linked list of the entries with one TTL.
pub mod Shape
pub mod Queue
pub mod Unlink
pub mod Stale
mod Tests
use elinproxy.Prelude.{ℕ, ◌+◌, ◌-◌, Option, none, some, ◌==◌, if◌then◌else◌, ◌>>=◌}
use elinproxy.Kvsm.Entry.{Ptr, null, Entry, Heap, load, modify}

-- `size` counts entries in memory, so it does not overflow.
pub record LinkedList : Type 0 where
  pub root : Ptr
  pub last : Ptr
  pub size : ℕ

abbrev pub empty : LinkedList
empty = record { root = null; last = null; size = 0 }

-- &e.prev and &e.next, written
abbrev pub set_prev : {V : Type 0} → Ptr → Entry V → Entry V
set_prev p e = record e { prev = p }

abbrev pub set_next : {V : Type 0} → Ptr → Entry V → Entry V
set_next p e = record e { next = p }

abbrev pub set_links : {V : Type 0} → Ptr → Ptr → Entry V → Entry V
set_links p q e = record e { prev = p; next = q }

module _ {V : Type 0} where
  unfoldable pub prev : LinkedList → Heap V → Ptr → Ptr
  prev l h e = if e == null then l.last else (h e).prev

  unfoldable pub next : LinkedList → Heap V → Ptr → Ptr
  next l h e = if e == null then l.root else (h e).next

  unfoldable pub add : LinkedList → Heap V → Ptr → Option (LinkedList × Heap V)
  unfolding modify
  add l h e =
      if l.root == null
      then (do
        h' ← modify h e (set_links null null)
        some (record { root = e; last = e; size = l.size + 1 }, h'))
      else do
        h₁ ← modify h e (set_links l.last null)
        h₂ ← modify h₁ l.last (set_next e)
        some (record { root = l.root; last = e; size = l.size + 1 }, h₂)

  -- `if p == nil { el.root = root } else { p.next = target }`
  unfoldable pub link_left : LinkedList → Heap V → Ptr → Ptr → Ptr → Option (LinkedList × Heap V)
  unfolding modify
  link_left l h p root target =
      if p == null
      then some (record l { root = root }, h)
      else do h' ← modify h p (set_next target); some (l, h')

  -- `if q == nil { el.last = last } else { q.prev = target }`
  unfoldable pub link_right : LinkedList → Heap V → Ptr → Ptr → Ptr → Option (LinkedList × Heap V)
  unfolding modify
  link_right l h q last target =
      if q == null
      then some (record l { last = last }, h)
      else do h' ← modify h q (set_prev target); some (l, h')

  unfoldable pub replace : LinkedList → Heap V → Ptr → Ptr → Option (LinkedList × Heap V)
  unfolding load modify link_left link_right
  replace l h o n = do
    old ← load h o
    h₁ ← modify h n (set_links old.prev old.next)
    (l₂, h₂) ← link_left l h₁ (h₁ n).prev n n
    link_right l₂ h₂ (h₂ n).next n n

  -- The end of `Remove`, for an entry at neither end. It sets `el.root = l`, where `l` is nil.
  unfoldable pub bypass : LinkedList → Heap V → Ptr → Option (LinkedList × Heap V)
  unfolding load link_left link_right
  bypass l h e = do
    n ← load h e
    (l₁, h₁) ← link_left l h n.prev null n.next
    link_right l₁ h₁ n.next n.prev n.prev

  -- `Remove` after the size was lowered, without its deferred writes
  unfoldable pub unlink : LinkedList → Heap V → Ptr → Option (LinkedList × Heap V)
  unfolding load modify bypass
  unlink l h e =
      if l.size == 0
      then some (record l { root = null; last = null }, h)
      else if l.root == e
      then (do n ← load h e; some (record l { root = n.next }, h))
      else if l.last == e
      then (do h' ← modify h e (set_next null); some (record l { last = (h' e).prev }, h'))
      else bypass l h e

  -- `log.Panic` on an empty list. The deferred writes clear the links of `e` on every path.
  unfoldable pub remove : LinkedList → Heap V → Ptr → Option (LinkedList × Heap V)
  unfolding modify unlink
  remove l h e = if l.size == 0 then none else do
    (l', h') ← unlink (record l { size = l.size - 1 }) h e
    h″ ← modify h' e (set_links null null)
    some (l', h″)
