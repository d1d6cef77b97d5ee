-- ===== src/Certs/Tests.antt =====
-- A certificate for "a" and the wild card "*.b".
use elinproxy.Prelude.{
  ◌++◌, ◌≡◌, ◌≢◌, refl, ◌⊎◌, ℕ, Bool, true, false, Option, none, some, [], ◌∷◌, ltb, if◌then◌else◌,
  length,
}
use elinproxy.Lsm.File.{Bytes}
use elinproxy.Certs.{Cert, Certs, store, find, get_certificate, valid}
use elinproxy.Certs.Served.{find-store}
use elinproxy.Certs.Issued.{get_certificate_lem}
use elinproxy.Text.{same}
use elinproxy.Certs.Storage
use elinproxy.Certs.Storage.{Etcd, Answer, ok, key_not_found, KeyInfo, load, exists, stat}
use elinproxy.Certs.Storage.Kept.{IsReliable, store-load}

abbrev a_and_b : Cert
a_and_b = record { at = 5; names = (42 ∷ 46 ∷ 98 ∷ []) ∷ (97 ∷ []) ∷ []; not_after = 100 }

abbrev nothing : Certs
nothing = record { certs = []; certs_wc = [] }

not_empty : ◌≢◌ {A = Bytes} (97 ∷ []) []
not_empty e = cc

find-store_example : find 50 (97 ∷ []) (store a_and_b nothing) ≡ valid a_and_b
find-store_example =
    find-store a_and_b (97 ∷ []) 50 ((42 ∷ 46 ∷ 98 ∷ []) ∷ []) [] nothing refl not_empty refl

issued_served : (get_certificate 50 (97 ∷ []) (some a_and_b) nothing).1 ≡ some a_and_b
unfolding get_certificate
issued_served = refl

get_certificate_lem_example :
    (ltb a_and_b.not_after 50 ≡ false) ⊎ ◌≡◌ {A = Option Cert} (some a_and_b) (some a_and_b)
get_certificate_lem_example =
    get_certificate_lem 50 (97 ∷ []) (some a_and_b) nothing a_and_b issued_served

-- A cluster of one key table.
abbrev one_table : Etcd
one_table = record {
  State = Bytes → Option Bytes;
  put = λ k v s. ((λ j. if same k j then some v else s j), true);
  get = λ j s. some (s j);
  get_prefix = λ p s. some [];
  delete = λ k s. ((λ j. if same k j then none else s j), true);
  size = λ k s. elim (s k) [ none ↦ 0 | some value ↦ length (k ++ value) ];
}

branches :
    (b : Bool) (x y : Option Bytes) → some (if b then x else y) ≡ (if b then some x else some y)
branches true x y = refl
branches false x y = refl

one_table-IsReliable : IsReliable one_table
one_table-IsReliable = record {
  puts = λ k j v s fine. branches (same k j) (some v) (s j);
  deletes = λ k j s fine. branches (same k j) none (s j);
}

-- The empty table, and a clock that is written as one number.
abbrev no_keys : Bytes → Option Bytes
no_keys k = none

abbrev tally : ℕ → Bytes
tally now = now ∷ []

abbrev count : Bytes → Option ℕ
count [] = none
count (n ∷ b) = some n

store-load_example :
    let s' = (Storage.store one_table tally 9 (97 ∷ []) (1 ∷ 2 ∷ []) no_keys).0 in
    (load one_table (97 ∷ []) s' ≡ ok (1 ∷ 2 ∷ []))
    × (exists one_table (97 ∷ []) s' ≡ true)
    × (stat one_table count (97 ∷ []) s'
        ≡ ok (record { key = 97 ∷ []; modified = 9; is_terminal = true; size = 3 }))
unfolding Storage.store
store-load_example =
    store-load one_table one_table-IsReliable (97 ∷ []) no_keys tally count 9 (1 ∷ 2 ∷ []) refl refl
