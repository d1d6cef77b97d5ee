-- ===== src/Kvsm/LinkedList/Unlink.antt =====
-- `Remove` (lsm/kvsm/list.go) inside a doubly linked list.
use elinproxy.Prelude.{
  ◌≡◌, ◌≢◌, refl, ◌∙◌, ◌-◌, false, List, [], ◌∷◌, ◌++◌, some, arith, has, has-append, has-last_or,
  last_or, last_or-append, length-append,
}
use elinproxy.Kvsm.Entry.{Ptr, null, Heap, update}
use elinproxy.Kvsm.LinkedList.{LinkedList, remove, set_links, set_next, set_prev}
use elinproxy.Kvsm.LinkedList.Queue.{SameOutside, SameData}
use elinproxy.Kvsm.LinkedList.Shape.{
  Forward, Backward, IsQueue, IsList, Forward-update, Forward-keep, Backward-update, Backward-keep,
  Forward-at, Backward-at, Forward-ne-null, Forward-apart,
}

module _ {V : Type 0} where
  -- With `e` between `z` and `y`, `z.next = y` leaves `e` out on the way forward.
  Forward-bypass :
      (h : Heap V) (e y p x : Ptr) (xs ys : List Ptr)
      → Forward h p (x ∷ xs ++ e ∷ y ∷ ys)
      → Forward (update h (last_or x xs) (set_next y (h (last_or x xs)))) p (x ∷ xs ++ y ∷ ys)
  Forward-bypass h e y p x [] ys f =
      let c = set_next y (h x) in
      let rest = Forward-update h x c (h e).next (y ∷ ys) (ground arith) f.3.3 in
      (f.0, f.1, ground arith, (ground arith, rest.1, rest.2, rest.3))
  Forward-bypass h e y p x (w ∷ xs) ys f =
      let rest = Forward-bypass h e y (h x).next w xs ys f.3 in
      (
        f.0,
        f.1,
        ground (arith, has-append x (w ∷ xs) (e ∷ y ∷ ys), has-append x (w ∷ xs) (y ∷ ys)),
        ground (arith, rest, has-last_or w xs, has-append x (w ∷ xs) (e ∷ y ∷ ys)),
      )

  -- and `y.prev = z` on the way back
  Backward-bypass :
      (h : Heap V) (e y b x : Ptr) (xs ys : List Ptr)
      → has y (x ∷ xs) ≡ false
      → has y ys ≡ false
      → Backward h b (x ∷ xs ++ e ∷ y ∷ ys)
      → Backward (update h y (set_prev (last_or x xs) (h y))) b (x ∷ xs ++ y ∷ ys)
  Backward-bypass h e y b x [] ys out out' f =
      (ground arith, (ground arith, Backward-update h y (set_prev x (h y)) y ys out' f.1.1.1))
  Backward-bypass h e y b x (w ∷ xs) ys out out' f =
      (ground arith, Backward-bypass h e y x w xs ys (ground arith) out' f.1)

  -- What `Remove` of `e` from the middle of a list promises.
  pub record Removed (l l' : LinkedList) (h h' : Heap V) (e : Ptr) (xs ys : List Ptr) : Type 0 where
    pub returns : remove l h e ≡ some (l', h')
    pub list : IsList h' l' (xs ++ ys)
    pub cleared : ((h' e).prev ≡ null) × ((h' e).next ≡ null)
    pub same : SameOutside (xs ++ e ∷ ys) h h'
    pub kept : SameData h h'

  -- An entry between two others is taken out: the rest keeps its order, both ways.
  pub remove_middle :
      (l : LinkedList) (h : Heap V) (e x y : Ptr) (xs ys : List Ptr)
      → IsList h l (x ∷ xs ++ e ∷ y ∷ ys)
      → (l' : LinkedList) × (h' : Heap V) × Removed l l' h h' e (x ∷ xs) (y ∷ ys)
  unfolding remove
  remove_middle l h e x y xs ys w = (
    record l { size = l.size - 1 },
    update h₂ e (set_links null null (h₂ e)),
    record {
      returns =
          ground
            (arith, at, before, z_ne_null, ends, has-last_or y ys, length-append xs (e ∷ y ∷ ys));
      list = record {
        queue = record {
          forward =
              Forward-update h₂ e _ l.root (x ∷ xs ++ y ∷ ys)
                (ground (arith, at, has-append e (x ∷ xs) (y ∷ ys)))
                (Forward-keep h₁ y _ l.root (x ∷ xs ++ y ∷ ys) refl
                  (Forward-bypass h e y l.root x xs ys q.forward));
          ends = ground (arith, ends, last_or-append x xs y ys);
          counted = ground (arith, length-append xs (e ∷ y ∷ ys), length-append xs (y ∷ ys));
        };
        backward =
            Backward-update h₂ e (set_links null null (h₂ e)) null (x ∷ xs ++ y ∷ ys)
              (ground (arith, at, has-append e (x ∷ xs) (y ∷ ys))) two_back;
      };
      cleared = ground arith;
      same = λ a o. ground (arith, has-append a (x ∷ xs) (e ∷ y ∷ ys), has-last_or x xs);
      kept = λ a. ground arith;
    },
  )
    where
      z : Ptr
      z = last_or x xs

      h₁ : Heap V
      h₁ = update h z (set_next y (h z))

      h₂ : Heap V
      h₂ = update h₁ y (set_prev z (h₁ y))

      q : IsQueue h l (x ∷ xs ++ e ∷ y ∷ ys)
      q = w.queue

      at :
          (e ≢ null)
          × (has e (x ∷ xs) ≡ false)
          × (has e (y ∷ ys) ≡ false)
          × Forward h (h e).next (y ∷ ys)
      at = Forward-at h e l.root (x ∷ xs) (y ∷ ys) q.forward

      before : (h e).prev ≡ z
      before = Backward-at h e null x xs (y ∷ ys) w.backward

      z_ne_null : z ≢ null
      z_ne_null =
          Forward-ne-null h z l.root (x ∷ xs ++ e ∷ y ∷ ys)
            (ground (arith, has-append z (x ∷ xs) (e ∷ y ∷ ys), has-last_or x xs)) q.forward

      ends : l.last ≡ last_or y ys
      ends = q.ends ∙ last_or-append x xs e (y ∷ ys)

      apart : has y (x ∷ xs) ≡ false
      apart = Forward-apart h y l.root (x ∷ xs) (e ∷ y ∷ ys) (ground arith) q.forward

      two_back : Backward h₂ null (x ∷ xs ++ y ∷ ys)
      two_back =
          Backward-bypass h₁ e y null x xs ys apart at.3.2
            (Backward-keep h z (set_next y (h z)) null (x ∷ xs ++ e ∷ y ∷ ys) refl w.backward)
