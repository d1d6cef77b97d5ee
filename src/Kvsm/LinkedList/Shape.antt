-- ===== src/Kvsm/LinkedList/Shape.antt =====
-- What a list on the heap looks like: the entries in order, followed by their links.
use elinproxy.Prelude.{
  ◌≡◌, ◌≢◌, refl, false, true, List, [], ◌∷◌, ◌++◌, arith, has, has-append, last_or, length,
}
use elinproxy.Kvsm.Entry.{Ptr, null, Entry, Heap, update}
use elinproxy.Kvsm.LinkedList.{LinkedList}

-- `next` leads from `p` through the distinct entries `xs` to nil.
abbrev pub Forward : {V : Type 0} → Heap V → Ptr → List Ptr → Type 0
Forward h p [] = p ≡ null
Forward h p (x ∷ xs) = (p ≡ x) × (x ≢ null) × (has x xs ≡ false) × Forward h (h x).next xs

-- `prev` leads back, from the first entry to `b`.
abbrev pub Backward : {V : Type 0} → Heap V → Ptr → List Ptr → Type 0
Backward h b [] = Unit {0}
Backward h b (x ∷ xs) = ((h x).prev ≡ b) × Backward h x xs

-- A list that is used as a queue: only the forward links count.
pub record IsQueue {V : Type 0} (h : Heap V) (l : LinkedList) (xs : List Ptr) : Type 0 where
  pub forward : Forward h l.root xs
  pub ends : l.last ≡ last_or null xs
  pub counted : l.size ≡ length xs

pub record IsList {V : Type 0} (h : Heap V) (l : LinkedList) (xs : List Ptr) : Type 0 where
  pub queue : IsQueue h l xs
  pub backward : Backward h null xs

module _ {V : Type 0} where
  -- Only the `next` of the listed entries counts.
  pub Forward-same :
      (h g : Heap V) (p : Ptr) (xs : List Ptr)
      → ((a : Ptr) → has a xs ≡ true → (g a).next ≡ (h a).next)
      → Forward h p xs
      → Forward g p xs
  Forward-same h g p [] same f = f
  Forward-same h g p (x ∷ xs) same f =
      let rest = Forward-same h g (h x).next xs (λ a i. same a (ground arith)) f.3 in
      (f.0, f.1, f.2, rw (same x (ground arith)) rest)

  pub IsQueue-same :
      (h g : Heap V) (l : LinkedList) (xs : List Ptr)
      → ((a : Ptr) → has a xs ≡ true → (g a).next ≡ (h a).next)
      → IsQueue h l xs
      → IsQueue g l xs
  IsQueue-same h g l xs same q = record {
    forward = Forward-same h g l.root xs same q.forward;
    ends = q.ends;
    counted = q.counted;
  }

  pub Forward-ne-null :
      (h : Heap V) (a p : Ptr) (xs : List Ptr) → has a xs ≡ true → Forward h p xs → a ≢ null
  Forward-ne-null h a p [] i f = cc
  Forward-ne-null h a p (x ∷ xs) i f = ground (arith, Forward-ne-null h a (h x).next xs)

  -- An entry of the list, what stands before it and what follows.
  pub Forward-at :
      (h : Heap V) (e p : Ptr) (xs ys : List Ptr)
      → Forward h p (xs ++ e ∷ ys)
      → (e ≢ null) × (has e xs ≡ false) × (has e ys ≡ false) × Forward h (h e).next ys
  Forward-at h e p [] ys f = (f.1, refl, f.2, f.3)
  Forward-at h e p (x ∷ xs) ys f =
      let rest = Forward-at h e (h x).next xs ys f.3 in
      (rest.0, ground (arith, has-append x xs (e ∷ ys)), rest.2, rest.3)

  -- No entry stands on both sides of a cut.
  pub Forward-apart :
      (h : Heap V) (a p : Ptr) (xs ys : List Ptr)
      → has a ys ≡ true
      → Forward h p (xs ++ ys)
      → has a xs ≡ false
  Forward-apart h a p [] ys i f = refl
  Forward-apart h a p (x ∷ xs) ys i f =
      ground (arith, Forward-apart h a (h x).next xs ys, has-append x xs ys)

  pub Forward-last :
      (h : Heap V) (p x : Ptr) (xs : List Ptr)
      → Forward h p (x ∷ xs)
      → (h (last_or x xs)).next ≡ null
  Forward-last h p x [] f = f.3
  Forward-last h p x (y ∷ ys) f = Forward-last h (h x).next y ys f.3

  pub Forward-link :
      (h : Heap V) (p e x : Ptr) (xs ys : List Ptr)
      → Forward h p (x ∷ xs ++ e ∷ ys)
      → (h (last_or x xs)).next ≡ e
  Forward-link h p e x [] ys f = f.3.0
  Forward-link h p e x (w ∷ xs) ys f = Forward-link h (h x).next e w xs ys f.3

  pub Backward-at :
      (h : Heap V) (e b x : Ptr) (xs ys : List Ptr)
      → Backward h b (x ∷ xs ++ e ∷ ys)
      → (h e).prev ≡ last_or x xs
  Backward-at h e b x [] ys f = f.1.0
  Backward-at h e b x (w ∷ xs) ys f = Backward-at h e x w xs ys f.1

  -- A write outside the list leaves it alone.
  pub Forward-update :
      (h : Heap V) (a : Ptr) (c : Entry V) (p : Ptr) (xs : List Ptr)
      → has a xs ≡ false
      → Forward h p xs
      → Forward (update h a c) p xs
  Forward-update h a c p [] out f = f
  Forward-update h a c p (x ∷ xs) out f =
      (f.0, f.1, f.2, ground (arith, Forward-update h a c (h x).next xs))

  -- So does a write that keeps the entry's `next`.
  pub Forward-keep :
      (h : Heap V) (a : Ptr) (c : Entry V) (p : Ptr) (xs : List Ptr)
      → c.next ≡ (h a).next
      → Forward h p xs
      → Forward (update h a c) p xs
  Forward-keep h a c p [] e f = f
  Forward-keep h a c p (x ∷ xs) e f =
      (f.0, f.1, f.2, ground (arith, Forward-keep h a c (h x).next xs))

  pub Backward-update :
      (h : Heap V) (a : Ptr) (c : Entry V) (b : Ptr) (xs : List Ptr)
      → has a xs ≡ false
      → Backward h b xs
      → Backward (update h a c) b xs
  Backward-update h a c b [] out f = tt
  Backward-update h a c b (x ∷ xs) out f =
      (ground arith, Backward-update h a c x xs (ground arith) f.1)

  pub Backward-keep :
      (h : Heap V) (a : Ptr) (c : Entry V) (b : Ptr) (xs : List Ptr)
      → c.prev ≡ (h a).prev
      → Backward h b xs
      → Backward (update h a c) b xs
  Backward-keep h a c b [] e f = tt
  Backward-keep h a c b (x ∷ xs) e f = (ground arith, Backward-keep h a c x xs e f.1)
