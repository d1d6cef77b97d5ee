-- ===== src/Kvsm/LinkedList/Queue.antt =====
-- `Add` at the end and `Remove` of the root: the way in which the expiration worker uses a list.
use elinproxy.Prelude.{
  ◌≡◌, ◌≢◌, refl, sym, subst, ◌+◌, ◌-◌, false, List, [], ◌∷◌, ◌++◌, some, arith, has, has-append,
  has-last_or, last_or, last_or-concat, length-append,
}
use elinproxy.Kvsm.Entry.{Ptr, null, Heap, update}
use elinproxy.Kvsm.LinkedList.{LinkedList, add, remove, set_links, set_next}
use elinproxy.Kvsm.LinkedList.Shape.{Forward, IsQueue, Forward-update, Forward-ne-null}

-- `g` and `h` agree but on the entries of `xs`.
abbrev pub SameOutside : {V : Type 0} → List Ptr → Heap V → Heap V → Type 0
SameOutside xs h g = (a : Ptr) → has a xs ≡ false → g a ≡ h a

-- Links may differ, the rest of every entry does not.
abbrev pub SameData : {V : Type 0} → Heap V → Heap V → Type 0
SameData h g =
    (a : Ptr)
    → ((g a).key ≡ (h a).key) × ((g a).expire_at ≡ (h a).expire_at) × ((g a).slot ≡ (h a).slot)

-- the list after its first entry was taken off
abbrev pub tail : LinkedList → Ptr → List Ptr → LinkedList
tail l p [] = record { root = null; last = null; size = 0 }
tail l p (x ∷ xs) = record { root = p; last = l.last; size = l.size - 1 }

module _ {V : Type 0} where
  Forward-concat :
      (h : Heap V) (e p x : Ptr) (xs : List Ptr)
      → e ≢ null
      → has e (x ∷ xs) ≡ false
      → (h e).next ≡ null
      → Forward h p (x ∷ xs)
      → Forward (update h (last_or x xs) (set_next e (h (last_or x xs)))) p ((x ∷ xs) ++ e ∷ [])
  Forward-concat h e p x [] ne out stop f =
      (f.0, f.1, ground arith, (ground arith, ne, refl, ground arith))
  Forward-concat h e p x (y ∷ ys) ne out stop f =
      let rest = Forward-concat h e (h x).next y ys ne (ground arith) stop f.3 in
      (
        f.0,
        f.1,
        ground (arith, has-append x (y ∷ ys) (e ∷ [])),
        ground (arith, rest, has-last_or y ys),
      )

  -- What `Add` of `e` to the list `xs` promises.
  pub record Added (l l' : LinkedList) (h h' : Heap V) (e : Ptr) (xs : List Ptr) : Type 0 where
    pub returns : add l h e ≡ some (l', h')
    pub queue : IsQueue h' l' (xs ++ e ∷ [])
    pub same : SameOutside (xs ++ e ∷ []) h h'
    pub kept : SameData h h'

  add-Added_empty :
      (l : LinkedList) (h : Heap V) (e : Ptr)
      → e ≢ null
      → IsQueue h l []
      → (l' : LinkedList) × (h' : Heap V) × Added l l' h h' e []
  unfolding add
  add-Added_empty l h e ne q = (
    record { root = e; last = e; size = l.size + 1 },
    update h e (set_links null null (h e)),
    record {
      returns = ground arith;
      queue = record {
        forward = (refl, ne, refl, ground arith);
        ends = refl;
        counted = ground arith;
      };
      same = λ a o. ground arith;
      kept = λ a. ground arith;
    },
  )

  add-Added_behind :
      (l : LinkedList) (h : Heap V) (e x : Ptr) (xs : List Ptr)
      → e ≢ null
      → has e (x ∷ xs) ≡ false
      → IsQueue h l (x ∷ xs)
      → (l' : LinkedList) × (h' : Heap V) × Added l l' h h' e (x ∷ xs)
  unfolding add
  add-Added_behind l h e x xs ne out q = (
    record { root = l.root; last = e; size = l.size + 1 },
    update h₁ l.last (set_next e (h₁ l.last)),
    record {
      returns =
          ground
            (arith, Forward-ne-null h (last_or x xs) l.root (x ∷ xs) (has-last_or x xs) q.forward);
      queue = record {
        forward =
            subst (λ z. Forward (update h₁ z (set_next e (h₁ z))) l.root (x ∷ xs ++ e ∷ []))
              (sym q.ends)
              (Forward-concat h₁ e l.root x xs ne out (ground arith)
                (Forward-update h e (set_links l.last null (h e)) l.root (x ∷ xs) out q.forward));
        ends = sym (last_or-concat x xs e);
        counted = ground (arith, length-append xs (e ∷ []));
      };
      same = λ a o. ground (arith, has-append a (x ∷ xs) (e ∷ []), has-last_or x xs);
      kept = λ a. ground arith;
    },
  )
    where
      h₁ : Heap V
      h₁ = update h e (set_links l.last null (h e))

  -- On a well-formed list, `Add` of an entry that is not in it does not panic, puts it at the end,
  -- and writes links of listed entries only.
  pub add-Added :
      (l : LinkedList) (h : Heap V) (e : Ptr) (xs : List Ptr)
      → e ≢ null
      → has e xs ≡ false
      → IsQueue h l xs
      → (l' : LinkedList) × (h' : Heap V) × Added l l' h h' e xs
  add-Added l h e [] ne out q = add-Added_empty l h e ne q
  add-Added l h e (x ∷ xs) ne out q = add-Added_behind l h e x xs ne out q

  -- `Remove` of the first entry does not panic, takes it off and clears its links, and it writes
  -- no other entry.
  pub remove_root :
      (l : LinkedList) (h : Heap V) (e : Ptr) (xs : List Ptr)
      → IsQueue h l (e ∷ xs)
      → let h' = update h e (set_links null null (h e)) in
        let l' = tail l (h e).next xs in (remove l h e ≡ some (l', h')) × IsQueue h' l' xs
  unfolding remove
  remove_root l h e [] q = (ground arith, record { forward = refl; ends = refl; counted = refl })
  remove_root l h e (x ∷ xs) q = (
    ground arith,
    record {
      forward = Forward-update h e (set_links null null (h e)) _ (x ∷ xs) q.forward.2 q.forward.3;
      ends = q.ends;
      counted = ground arith;
    },
  )
