-- ===== src/Kvsm/Tests.antt =====
-- A table in which a key was set again before its first entry expired.
use elinproxy.Prelude.{
  ℕ, ◌≡◌, ◌≢◌, refl, Bool, true, false, none, some, List, [], ◌∷◌, arith, if◌then◌else◌, ◌==◌,
}
use elinproxy.Prelude.Assoc.{lookup, total}
use elinproxy.Kvsm.Entry.{Ptr, Entry, Heap, expired}
use elinproxy.Kvsm.LinkedList
use elinproxy.Kvsm.LinkedList.{LinkedList}
use elinproxy.Kvsm.LinkedList.Shape.{Forward}
use elinproxy.Kvsm.Store.{Kvsm, Found, new, set, get, swap, remove_by_key}
use elinproxy.Kvsm.Worker.{second, receive, sweep, tick}
use elinproxy.Kvsm.Invariant.{IsSound}
use elinproxy.Kvsm.Invariant.Worker.{Sound, Ends}
use elinproxy.Kvsm.Invariant.Pass.{Passed, sweep-Passed}
use elinproxy.Kvsm.Invariant.Tick.{Visited, tick-Visited}
use elinproxy.Kvsm.Reads.{missing, get-set, get-remove_by_key, get-swap, expiry_drops_newer}
use elinproxy.Kvsm.Reachable.{start, value_set, Reachable-safe}

abbrev blank : Entry ℕ
blank = record { key = none; expire_at = 0; slot = none; prev = 0; next = 0 }

-- Entry 1 came first; entry 2 is the one in the table, and its message waits.
abbrev two_entries : Heap ℕ
two_entries a =
    if a == 1
    then record { key = some 7; expire_at = 10; slot = some (some 41); prev = 0; next = 0 }
    else if a == 2
    then record { key = some 7; expire_at = 99; slot = some (some 42); prev = 0; next = 0 }
    else blank

abbrev one_listed : LinkedList
one_listed = record { root = 1; last = 1; size = 1 }

abbrev set_again : Kvsm ℕ
set_again = record {
  items = (7, 2) ∷ [];
  n = 2;
  add_ch = (record { ttl = 5000000000; entry = 2 }) ∷ [];
  has_callback = true;
  evicted = [];
  lists = (second, one_listed) ∷ [];
  heap = two_entries;
}

abbrev first_queued : ℕ → List Ptr
first_queued k = if second == k then 1 ∷ [] else []

one_or_none : Bool → LinkedList
one_or_none b = elim (if b then some one_listed else none) [ none ↦ LinkedList.empty | some l ↦ l ]

listed_or_not : (b : Bool) → Forward two_entries (one_or_none b).root (if b then 1 ∷ [] else [])
unfolding one_or_none
listed_or_not true = (refl, λ e. omega (arith, e), refl, refl)
listed_or_not false = refl

set_again-IsSound : IsSound first_queued set_again
unfolding lookup total one_or_none
set_again-IsSound = record {
  keyed = λ k p found. ground arith;
  queue = λ k. record {
    forward = listed_or_not (second == k);
    ends = ground arith;
    counted = ground arith;
  };
  live = λ k a i. ground arith;
  apart = λ j k a i i'. ground arith;
  waiting = λ a i. (ground arith, ground arith, λ k. ground arith);
  distinct = (refl, tt);
  counted = refl;
}

three_free : ◌≢◌ {A = Ptr} 3 0
three_free e = omega (arith, e)

Reachable-safe_example :
    let kv = set 3 7 (some 41) 10 0 (new (λ a. blank)) in
    Sound kv
    × ((f : Found ℕ) × (get 20 7 kv ≡ some f))
    × Ends Sound (receive kv)
    × Ends Sound (tick 20 kv)
unfolding new
Reachable-safe_example =
    Reachable-safe (set 3 7 (some 41) 10 0 (new (λ a. blank))) 20 7
      (value_set (new (λ a. blank)) 3 7 (some 41) 10 0 three_free refl (start (λ a. blank)))

tick-Visited_example : Ends (Visited set_again) (tick 50 set_again)
tick-Visited_example = tick-Visited 50 set_again (first_queued, set_again-IsSound)

sweep-Passed_example : Ends (Passed 50 second (1 ∷ []) set_again) (sweep 2 50 second 0 set_again)
unfolding lookup
sweep-Passed_example =
    sweep-Passed first_queued set_again set_again-IsSound 50 second one_listed refl 0

get-set_example :
    get 60 8 (set 3 8 (some 43) 10 50 set_again)
    ≡ some (record { value = some 43; is_expired = false; ok = true })
get-set_example = get-set set_again-IsSound 3 8 (some 43) 10 50 60 8 refl

get-remove_by_key_example : get 60 7 (remove_by_key 7 set_again) ≡ some missing
get-remove_by_key_example = get-remove_by_key set_again-IsSound 7 60 7

get-swap_example :
    (kv' : Kvsm ℕ) × (swap 3 7 (some 43) 10 50 set_again ≡ some kv')
    × (kv'.evicted ≡ some 42 ∷ [])
    × ((now j : ℕ)
        → get now j kv' ≡ (
            if 7 == j
            then some
                (record { value = some 43; is_expired = expired now (two_entries 2); ok = true })
            else get now j set_again))
unfolding lookup
get-swap_example = get-swap set_again-IsSound 3 7 2 (some 42) (some 43) 10 50 refl refl

expiry_drops_newer_example :
    (get 50 7 set_again ≡ some (record { value = some 42; is_expired = false; ok = true }))
    × Ends (λ kv'. get 50 7 kv' ≡ some missing) (sweep 2 50 second 0 set_again)
unfolding lookup expired
expiry_drops_newer_example =
    expiry_drops_newer set_again-IsSound 50 second 0 7 1 2 [] one_listed (some 41) (some 42) refl
      refl refl refl refl refl refl refl
