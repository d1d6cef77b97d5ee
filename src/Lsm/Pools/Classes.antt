-- ===== src/Lsm/Pools/Classes.antt =====
-- Which sizes the pools of lsm/item.go hand out.
use elinproxy.Prelude.{
  ℕ, ◌/◌, ◌≤◌, ◌<◌, ◌≡◌, inl, inr, ap, ◌∙◌, List, [], ◌∷◌, arith, leb, ◌==◌, min, leb→le,
  Bool-cases, Option-cases, ==_iff,
}
use elinproxy.Lsm.Pools.{
  item_mem_min_size, item_mem_max_size, Pools, calc_index, replace, get_item_len, put_item_mem,
}
use elinproxy.Prelude.Pool.{AllOf, pick, pick-AllOf}

-- The calls on the pools, and what they leave.
pub data Call : Type 0 where
  get_item : ℕ → ℕ → Call
  put_item : ℕ → Call

unfoldable pub run : List Call → Pools → Pools
run [] pools = pools
run (get_item place l ∷ calls) pools = run calls (get_item_len place l pools).0
run (put_item c ∷ calls) pools = run calls (put_item_mem c pools)

abbrev pub no_items : Pools
no_items = λ i. []

-- The items of pool `i` have its size in kilobytes, if it is not the first one.
abbrev AllClass : ℕ → List ℕ → Type 0
AllClass i = AllOf (λ c. 0 < i → c / item_mem_min_size ≡ i)

abbrev IsClassed : Pools → Type 0
IsClassed pools = (i : ℕ) → AllClass i (pools i)

index_class :
    (c : ℕ) → c ≤ item_mem_max_size → 0 < calc_index c → c / item_mem_min_size ≡ calc_index c
unfolding calc_index
index_class c small more = omega arith

inner_index :
    (l : ℕ)
    → item_mem_min_size ≤ l
    → l < item_mem_max_size
    → (calc_index l ≡ l / item_mem_min_size) × (0 < calc_index l)
unfolding calc_index
inner_index l more less = (omega arith, omega arith)

replace_class :
    (i : ℕ) (cs : List ℕ) (pools : Pools)
    → AllClass i cs
    → IsClassed pools
    → IsClassed (replace i cs pools)
replace_class i cs pools h all j = elim (Bool-cases (j == i)) [
  | inl same ↦ rw same (rw ((==_iff j i).0 same) h)
  | inr other ↦ rw other (all j)
]

put_item-class : (c : ℕ) (pools : Pools) → IsClassed pools → IsClassed (put_item_mem c pools)
unfolding put_item_mem
put_item-class c pools all = elim (Bool-cases (leb c item_mem_min_size)) [
  | inl small ↦
      rw small (replace_class 0 (c ∷ pools 0) pools ((λ h. absurd (omega arith)), all 0) all)
  | inr more ↦ rw more (elim (Bool-cases (leb c item_mem_max_size)) [
    | inl fits ↦ rw fits (
        replace_class (calc_index c) (c ∷ pools (calc_index c)) pools
          (index_class c (leb→le c item_mem_max_size fits), all (calc_index c)) all)
    | inr large ↦ rw large all
  ])
]

-- What getItemLen hands out, from a pool but for the first, and the pools that it leaves.
get_item-class :
    (place l : ℕ) (pools : Pools)
    → IsClassed pools
    → IsClassed (get_item_len place l pools).0
      × (item_mem_min_size ≤ l
          → l < item_mem_max_size
          → (get_item_len place l pools).1 / item_mem_min_size ≡ l / item_mem_min_size)
unfolding get_item_len
get_item-class place l pools all =
    let size = min l item_mem_max_size in
    let i = calc_index size in
    elim (Option-cases (pick place (pools i))) [
      | inl e ↦
          rw (e, get_item_len) (all, λ more less. ap (λ n. n / item_mem_min_size) (omega arith))
      | inr ((c, cs), e) ↦
          let (kept, others) =
            pick-AllOf (λ c'. 0 < i → c' / item_mem_min_size ≡ i) place (pools i) c cs (all i) e in
          rw (e, get_item_len)
            (
              replace_class i cs pools others all,
              λ more less.
                  let same : size ≡ l = omega arith in
                  let (inner, pos) = inner_index l more less in
                  let at : calc_index size ≡ calc_index l = ap calc_index same in
                  kept (omega (arith, at)) ∙ at ∙ inner,
            )
    ]

run-class : (calls : List Call) (pools : Pools) → IsClassed pools → IsClassed (run calls pools)
unfolding run
run-class [] pools all = all
run-class (get_item place l ∷ calls) pools all =
    run-class calls (get_item_len place l pools).0 (get_item-class place l pools all).0
run-class (put_item c ∷ calls) pools all =
    run-class calls (put_item_mem c pools) (put_item-class c pools all)

-- After any calls of getItemLen and putItemMem from empty pools, getItemLen hands out an item whose
-- buffer has as many whole kilobytes as were asked for, for lengths from 1 KB to below 5 MB.
pub get_item_len-run :
    (calls : List Call) (place l : ℕ)
    → item_mem_min_size ≤ l
    → l < item_mem_max_size
    → (get_item_len place l (run calls no_items)).1 / item_mem_min_size ≡ l / item_mem_min_size
get_item_len-run calls place l more less =
    (get_item-class place l (run calls no_items) (run-class calls no_items (λ i. tt))).1 more less
