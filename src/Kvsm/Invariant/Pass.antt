-- ===== src/Kvsm/Invariant/Pass.antt =====
-- The worker's pass over one TTL list: the inner loop of the timer's case.
use elinproxy.Prelude.{
  ℕ, suc, ◌+◌, ◌≤◌, ◌≡◌, ◌≢◌, refl, sym, ap, ◌∙◌, subst, true, false, ◌||◌, Option, none, some,
  List, [], ◌∷◌, arith, ◌==◌, if◌then◌else◌, length, inl, inr, Bool-cases, ==_self, ==_ne,
  Option-cases,
}
use elinproxy.Prelude.Assoc.{lookup, lookup-insert}
use elinproxy.Kvsm.Entry.{Ptr, null, expired, get_value, put_entry}
use elinproxy.Kvsm.LinkedList
use elinproxy.Kvsm.LinkedList.{LinkedList}
use elinproxy.Kvsm.LinkedList.Shape.{IsQueue}
use elinproxy.Kvsm.LinkedList.Queue.{tail}
use elinproxy.Kvsm.Store.{Kvsm}
use elinproxy.Kvsm.Worker.{ok, or_panic, is_nil, list_at, round, sweep}
use elinproxy.Kvsm.Invariant.{IsSound}
use elinproxy.Kvsm.Invariant.Sweep.{list_at-insert, dropped, drop_entry_lem, dropped-IsSound, left}
use elinproxy.Kvsm.Invariant.Worker.{Sound, Ends}

-- What a pass over the list of `tkd`, which holds `xs`, should leave: its first entry goes if it has
-- no value or has expired.
expire_slot : {V : Type 0} → ℕ → ℕ → Ptr → List Ptr → Kvsm V → Option (Option V) → Kvsm V
expire_slot now tkd e xs kv none = kv
expire_slot now tkd e xs kv (some p) =
    if is_nil p || expired now (kv.heap e) then dropped tkd (list_at kv.lists tkd) e xs p kv else kv

unfoldable pub expire_head : {V : Type 0} → ℕ → ℕ → List Ptr → Kvsm V → Kvsm V
unfolding expire_slot
expire_head now tkd [] kv = kv
expire_head now tkd (e ∷ xs) kv = expire_slot now tkd e xs kv (kv.heap e).slot

module _ {V : Type 0} {queued : ℕ → List Ptr} {kv : Kvsm V} (w : IsSound queued kv) (now tkd : ℕ)
    {l : LinkedList} (found : lookup tkd kv.lists ≡ some l) where
  pub list_is : list_at kv.lists tkd ≡ l
  list_is = rw (found, list_at)

  queue_is : IsQueue kv.heap l (queued tkd)
  queue_is = subst (λ m. IsQueue kv.heap m (queued tkd)) list_is (w.queue tkd)

  -- The loop starts at the root, and is at nil after the last entry.
  sweep_root :
      (fuel : ℕ) (e : Ptr)
      → l.root ≡ e
      → sweep (suc fuel) now tkd null kv ≡ round now tkd l (sweep fuel now tkd) e kv
  unfolding sweep LinkedList.next
  sweep_root fuel e at =
      rw (found, or_panic) (ap (λ a. round now tkd l (sweep fuel now tkd) a kv) at)

  sweep_end : (fuel : ℕ) → l.root ≡ null → sweep (suc fuel) now tkd null kv ≡ ok kv
  unfolding round
  sweep_end fuel at = sweep_root fuel null at

  module _ (e : Ptr) (xs : List Ptr) (at : queued tkd ≡ e ∷ xs) (p : Option V)
      (full : (kv.heap e).slot ≡ some p) where
    head : IsQueue kv.heap l (e ∷ xs)
    head = subst (IsQueue kv.heap l) at queue_is

    not_null : (e == null) ≡ false
    not_null = ground (arith, head.forward)

    value : get_value (kv.heap e) ≡ some p
    unfolding get_value
    value = full

    sweep_keep :
        (fuel : ℕ)
        → (is_nil p || expired now (kv.heap e)) ≡ false
        → sweep (suc fuel) now tkd null kv ≡ ok kv
    unfolding round
    sweep_keep fuel fine =
        sweep_root fuel e head.forward.0 ∙ rw (not_null, value, or_panic) (rw fine)

    -- The removed entry has no successor any more, so the next round ends the loop.
    sweep_after :
        (fuel : ℕ)
        → let after = dropped tkd l e xs p kv in sweep (suc fuel) now tkd e after ≡ ok after
    unfolding sweep LinkedList.next put_entry round
    sweep_after fuel = rw (lookup-insert, ==_self tkd, or_panic) (rw (not_null, ==_self e))

    pub sweep_drop :
        (fuel : ℕ)
        → (is_nil p || expired now (kv.heap e)) ≡ true
        → sweep (suc (suc fuel)) now tkd null kv ≡ ok (dropped tkd l e xs p kv)
    unfolding round
    sweep_drop fuel stale =
        sweep_root (suc fuel) e head.forward.0
        ∙ rw (not_null, value, or_panic)
            (rw stale (rw (drop_entry_lem tkd l e xs kv p head full) (sweep_after fuel)))

expire_head_stale :
    {V : Type 0} (now tkd : ℕ) (e : Ptr) (xs : List Ptr) (kv : Kvsm V) (p : Option V)
    → (kv.heap e).slot ≡ some p
    → (is_nil p || expired now (kv.heap e)) ≡ true
    → expire_head now tkd (e ∷ xs) kv ≡ dropped tkd (list_at kv.lists tkd) e xs p kv
unfolding expire_head
expire_head_stale now tkd e xs kv p full stale =
    ap (expire_slot now tkd e xs kv) full
    ∙ ap (λ b. if b then dropped tkd (list_at kv.lists tkd) e xs p kv else kv) stale

expire_head_fine :
    {V : Type 0} (now tkd : ℕ) (e : Ptr) (xs : List Ptr) (kv : Kvsm V) (p : Option V)
    → (kv.heap e).slot ≡ some p
    → (is_nil p || expired now (kv.heap e)) ≡ false
    → expire_head now tkd (e ∷ xs) kv ≡ kv
unfolding expire_head
expire_head_fine now tkd e xs kv p full fine =
    ap (expire_slot now tkd e xs kv) full
    ∙ ap (λ b. if b then dropped tkd (list_at kv.lists tkd) e xs p kv else kv) fine

size-tail :
    (l : LinkedList) (p : Ptr) (xs : List Ptr)
    → l.size ≡ suc (length xs)
    → l.size ≤ (tail l p xs).size + 1
size-tail l p [] e = omega arith
size-tail l p (x ∷ xs) e = omega arith

-- What a pass over a list comes to, on every branch.
pub record Passed {V : Type 0} (now tkd : ℕ) (xs : List Ptr) (kv kv' : Kvsm V) : Type 0 where
  pub result : kv' ≡ expire_head now tkd xs kv
  pub sound : Sound kv'
  pub others : (j : ℕ) → j ≢ tkd → lookup j kv'.lists ≡ lookup j kv.lists
  pub one_at_most : (list_at kv.lists tkd).size ≤ (list_at kv'.lists tkd).size + 1

module _ {V : Type 0} (queued : ℕ → List Ptr) (kv : Kvsm V) (w : IsSound queued kv) (now tkd : ℕ)
    (l : LinkedList) (found : lookup tkd kv.lists ≡ some l) where
  at_list : list_at kv.lists tkd ≡ l
  at_list = list_is w now tkd found

  dropped-Sound :
      (e : Ptr) (xs : List Ptr) (p : Option V)
      → queued tkd ≡ e ∷ xs
      → (kv.heap e).slot ≡ some p
      → Sound (dropped tkd l e xs p kv)
  dropped-Sound e xs p at full = elim (Option-cases (kv.heap e).key) [
    | inl bad ↦ absurd (ground (arith, w.live tkd e))
    | inr (k₀, key) ↦
        subst (λ m. Sound (dropped tkd m e xs p kv)) at_list
          (left w tkd e xs p at full k₀ key, dropped-IsSound w tkd e xs p at full k₀ key)
  ]

  size-dropped :
      (e : Ptr) (xs : List Ptr) (p : Option V)
      → queued tkd ≡ e ∷ xs
      → (list_at kv.lists tkd).size ≤ (list_at (dropped tkd l e xs p kv).lists tkd).size + 1
  size-dropped e xs p at =
      rw (at_list, list_at-insert tkd tkd, ==_self tkd)
        (size-tail l (kv.heap e).next xs
          (subst (IsQueue kv.heap l) at (queue_is w now tkd found)).counted)

  Passed-head :
      (fuel : ℕ) (e : Ptr) (xs : List Ptr) (p : Option V)
      → queued tkd ≡ e ∷ xs
      → (kv.heap e).slot ≡ some p
      → Ends (Passed now tkd (e ∷ xs) kv) (sweep (suc (suc fuel)) now tkd null kv)
  Passed-head fuel e xs p at full = elim (Bool-cases (is_nil p || expired now (kv.heap e))) [
    | inl stale ↦ (
      dropped tkd l e xs p kv,
      sweep_drop w now tkd found e xs at p full fuel stale,
      record {
        result =
            ap (λ m. dropped tkd m e xs p kv) (sym at_list)
            ∙ sym (expire_head_stale now tkd e xs kv p full stale);
        sound = dropped-Sound e xs p at full;
        others = λ j ne.
            lookup-insert tkd j (tail l (kv.heap e).next xs) kv.lists
            ∙ ap (λ b. if b then some (tail l (kv.heap e).next xs) else lookup j kv.lists)
                (==_ne tkd j (λ e. ne (sym e)));
        one_at_most = size-dropped e xs p at;
      },
    )
    | inr fine ↦ (
      kv,
      sweep_keep w now tkd found e xs at p full (suc fuel) fine,
      record {
        result = sym (expire_head_fine now tkd e xs kv p full fine);
        sound = (queued, w);
        others = λ j ne. refl;
        one_at_most = omega arith;
      },
    )
  ]

  -- On a table that meets the invariant, one pass over a TTL list that the table has ends without a
  -- panic, whatever fuel of two or more is given, and keeps the invariant and other lists. It takes
  -- the first entry off, if that has no value or expired, and no other one.
  pub sweep-Passed :
      (fuel : ℕ) → Ends (Passed now tkd (queued tkd) kv) (sweep (suc (suc fuel)) now tkd null kv)
  unfolding expire_head
  sweep-Passed fuel = go (queued tkd) refl
    where
      go :
          (xs : List Ptr)
          → queued tkd ≡ xs
          → Ends (Passed now tkd xs kv) (sweep (suc (suc fuel)) now tkd null kv)
      go [] at = (
        kv,
        sweep_end w now tkd found (suc fuel)
            (subst (IsQueue kv.heap l) at (queue_is w now tkd found)).forward,
        record {
          result = refl;
          sound = (queued, w);
          others = λ j ne. refl;
          one_at_most = omega arith;
        },
      )
      go (e ∷ xs) at = elim (Option-cases (kv.heap e).slot) [
        | inl bad ↦ absurd (ground (arith, w.live tkd e))
        | inr (p, full) ↦ Passed-head fuel e xs p at full
      ]
