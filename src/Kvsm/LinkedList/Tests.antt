-- ===== src/Kvsm/LinkedList/Tests.antt =====
-- A list of three entries, 1 to 3, and an entry 4 outside of it.
use elinproxy.Prelude.{ℕ, ◌≡◌, ◌≢◌, refl, false, none, some, [], ◌∷◌, arith, if◌then◌else◌, ◌==◌}
use elinproxy.Kvsm.Entry.{Ptr, Entry, Heap}
use elinproxy.Kvsm.LinkedList.{LinkedList}
use elinproxy.Kvsm.LinkedList.Shape.{IsList}

abbrev linked : Ptr → Ptr → Entry ℕ
linked p q = record { key = some 7; expire_at = 10; slot = some none; prev = p; next = q }

abbrev three_entries : Heap ℕ
three_entries a =
    if a == 1
    then linked 0 2
    else if a == 2
    then linked 1 3
    else if a == 3
    then linked 2 0
    else linked 0 0

abbrev three : LinkedList
three = record { root = 1; last = 3; size = 3 }

ne_0 : (p : Ptr) → (p == 0) ≡ false → ◌≢◌ {A = Ptr} p 0
ne_0 p h e = ground arith

three-IsList : IsList three_entries three (1 ∷ 2 ∷ 3 ∷ [])
three-IsList = record {
  queue = record {
    forward = (refl, ne_0 1 refl, refl, (refl, ne_0 2 refl, refl, (refl, ne_0 3 refl, refl, refl)));
    ends = refl;
    counted = refl;
  };
  backward = (refl, (refl, (refl, tt)));
}
