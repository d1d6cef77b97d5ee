-- ===== src/Kvsm/LinkedList/Stale.antt =====
-- What `Remove` (lsm/kvsm/list.go) leaves behind at the two ends of a list.
use elinproxy.Prelude.{
  ◌≡◌, ◌≢◌, sym, ◌∙◌, ◌-◌, false, List, [], ◌∷◌, ◌++◌, some, arith, has, has-last_or, last_or,
  last_or-append, length-append,
}
use elinproxy.Kvsm.Entry.{Ptr, null, Heap, update}
use elinproxy.Kvsm.LinkedList.{LinkedList, remove, set_links, set_next}
use elinproxy.Kvsm.LinkedList.Shape.{
  Forward, IsQueue, IsList, Forward-at, Forward-link, Backward-at, Forward-last,
}
use elinproxy.Kvsm.LinkedList.Queue.{tail, remove_root}

module _ {V : Type 0} where
  -- `Remove` of the last of several entries moves `last` to the entry before it and leaves that
  -- entry's `next` on the removed one, so the result is no well-formed list.
  pub remove_last_stale :
      (l : LinkedList) (h : Heap V) (e x : Ptr) (xs : List Ptr)
      → IsList h l (x ∷ xs ++ e ∷ [])
      → (l' : LinkedList) × (h' : Heap V) × (remove l h e ≡ some (l', h'))
        × (l'.last ≡ last_or x xs)
        × ((h' (last_or x xs)).next ≡ e)
        × ¬ IsQueue h' l' (x ∷ xs)
  unfolding remove
  remove_last_stale l h e x xs w = (
    record { root = l.root; last = (h e).prev; size = l.size - 1 },
    h',
    ground (arith, at, ends, length-append xs (e ∷ [])),
    before,
    stale,
    λ q. at.0 (sym stale ∙ Forward-last h' l.root x xs q.forward),
  )
    where
      h₁ : Heap V
      h₁ = update h e (set_next null (h e))

      h' : Heap V
      h' = update h₁ e (set_links null null (h₁ e))

      at : (e ≢ null) × (has e (x ∷ xs) ≡ false) × (has e [] ≡ false) × Forward h (h e).next []
      at = Forward-at h e l.root (x ∷ xs) [] w.queue.forward

      before : (h e).prev ≡ last_or x xs
      before = Backward-at h e null x xs [] w.backward

      ends : l.last ≡ e
      ends = w.queue.ends ∙ last_or-append x xs e []

      linked : (h (last_or x xs)).next ≡ e
      linked = Forward-link h l.root e x xs [] w.queue.forward

      stale : (h' (last_or x xs)).next ≡ e
      stale = ground (arith, linked, at, has-last_or x xs)

  -- `Remove` of the first of several entries leaves the `prev` of the new first entry on the removed
  -- one, so the result is no well-formed doubly linked list.
  pub remove_root_stale :
      (l : LinkedList) (h : Heap V) (e x : Ptr) (xs : List Ptr)
      → IsList h l (e ∷ x ∷ xs)
      → (l' : LinkedList) × (h' : Heap V) × (remove l h e ≡ some (l', h'))
        × (l'.root ≡ x)
        × ((h' x).prev ≡ e)
        × ¬ IsList h' l' (x ∷ xs)
  remove_root_stale l h e x xs w = (
    tail l (h e).next (x ∷ xs),
    h',
    (remove_root l h e (x ∷ xs) w.queue).0,
    w.queue.forward.3.0,
    stale,
    λ v. w.queue.forward.1 (sym stale ∙ v.backward.0),
  )
    where
      h' : Heap V
      h' = update h e (set_links null null (h e))

      stale : (h' x).prev ≡ e
      stale = ground (arith, w.backward, w.queue.forward)
