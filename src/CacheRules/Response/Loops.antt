-- ===== src/CacheRules/Response/Loops.antt =====
-- The loops of httpsrv/cacherules/resp.go, one by one.
use elinproxy.Prelude.{
  ℕ, ◌≡◌, ◌≢◌, refl, ap, ◌↔◌, ◌⊎◌, inl, inr, Bool, true, false, not, some, List, [], ◌∷◌, ◌++◌,
  Bool-cases, if◌then◌else◌,
}
use elinproxy.Prelude.Assoc.{lookup}
use elinproxy.Prelude.Int.{ℤ, ◌+ℤ◌, wrap64}
use elinproxy.Lsm.File.{Bytes}
use elinproxy.Text.{
  contains, contains_iff, Within, none_of, NoneOf, none_of_iff, not-none_of_iff, refuted,
}
use mathlib.Core.List.{mem-cons_self, mem-cons_of_mem, not-mem-nil, forall_mem-cons}
use elinproxy.CacheRules.Response.{Response, is_empty, header_refused, content_type_loop}

-- A header of the black list has a value that one of its strings stands in.
abbrev pub Refuses : Response → Bytes × List Bytes → Type 0
Refuses resp (k, vs) = (resp.header k ≢ []) × ¬ NoneOf (Within (resp.header k)) vs

pub value_iff :
    (x : Bytes) (vs : List Bytes)
    → ((if is_empty x then false else not (none_of (λ s. contains x s) vs)) ≡ true)
      ↔ ((x ≢ []) × ¬ NoneOf (Within x) vs)
value_iff [] vs = (λ h. cc, λ (n, _). absurd (n refl))
value_iff (c ∷ x) vs =
    let strings =
      not-none_of_iff (λ s. contains (c ∷ x) s) (Within (c ∷ x)) (contains_iff (c ∷ x)) vs in
    (λ h. (λ e. cc, strings.0 h), λ (_, n). strings.1 n)

pub black_list_iff :
    (resp : Response) (l : List (Bytes × List Bytes))
    → ((if is_empty l then true else none_of (header_refused resp) l) ≡ true)
      ↔ NoneOf (Refuses resp) l
black_list_iff resp [] =
    none_of_iff (header_refused resp) (Refuses resp) (λ (k, vs). value_iff (resp.header k) vs) []
black_list_iff resp (e ∷ l) =
    none_of_iff (header_refused resp) (Refuses resp) (λ (k, vs). value_iff (resp.header k) vs)
      (e ∷ l)

pub lookup-not_empty : {v : ℤ} (s : ℕ) (l : List (ℕ × ℤ)) → lookup s l ≡ some v → is_empty l ≡ false
unfolding lookup
lookup-not_empty s [] h = cc
lookup-not_empty s (e ∷ l) h = refl

-- The entry of a content type stands in the value of the header.
abbrev pub Names : Bytes → Bytes × ℤ → Type 0
Names value (k, v) = Within value k

pub loop_miss :
    (ttl : ℤ) (value : Bytes) (rules : List (Bytes × ℤ))
    → NoneOf (Names value) rules
    → content_type_loop ttl value rules ≡ (ttl, false)
unfolding content_type_loop
loop_miss ttl value [] h = refl
loop_miss ttl value ((k, v) ∷ rules) h = elim (Bool-cases (contains value k)) [
  | inl t ↦ absurd (h (k, v) mem-cons_self ((contains_iff value k).0 t))
  | inr f ↦ rw f (loop_miss ttl value rules (λ e m. h e (mem-cons_of_mem (k, v) m)))
]

pub loop_hit :
    (ttl v : ℤ) (value k : Bytes) (before after : List (Bytes × ℤ))
    → NoneOf (Names value) before
    → Within value k
    → content_type_loop ttl value (before ++ (k, v) ∷ after) ≡ (wrap64 (ttl +ℤ v), true)
unfolding content_type_loop
loop_hit ttl v value k [] after h w = rw ((contains_iff value k).1 w) refl
loop_hit ttl v value k ((j, u) ∷ before) after h w = elim (Bool-cases (contains value j)) [
  | inl t ↦ absurd (h (j, u) mem-cons_self ((contains_iff value j).0 t))
  | inr f ↦ rw f (loop_hit ttl v value k before after (λ e m. h e (mem-cons_of_mem (j, u) m)) w)
]

-- Either no rule holds, or there is a first one that does.
pub first_rule :
    (value : Bytes) (rules : List (Bytes × ℤ))
    → NoneOf (Names value) rules
      ⊎ ((k : Bytes) × (v : ℤ) × (before : List (Bytes × ℤ)) × (after : List (Bytes × ℤ)) × (rules
            ≡ before ++ (k, v) ∷ after)
          × NoneOf (Names value) before
          × Within value k)
first_rule value [] = inl (λ e m. absurd (not-mem-nil m))
first_rule value ((k, v) ∷ rules) = elim (Bool-cases (contains value k)) [
  | inl t ↦ inr (k, v, [], rules, refl, λ e m. absurd (not-mem-nil m), (contains_iff value k).0 t)
  | inr f ↦
      let no : ¬ Names value (k, v) =
        refuted (λ (j, u). contains value j) (Names value) (λ (j, u). contains_iff value j) (k, v)
          f in
      elim (first_rule value rules) [
        | inl n ↦ inl ((forall_mem-cons (λ e. hlevel)).1 (no, n))
        | inr (j, u, before, after, e, n, w) ↦ inr (
          j,
          u,
          (k, v) ∷ before,
          after,
          ap (◌∷◌ (k, v)) e,
          (forall_mem-cons (λ e. hlevel)).1 (no, n),
          w,
        )
      ]
]

pub is_empty-ne : (x : Bytes) → x ≢ [] → is_empty x ≡ false
is_empty-ne [] n = absurd (n refl)
is_empty-ne (c ∷ x) n = refl

pub is_empty-append :
    (a : List (Bytes × ℤ)) (e : Bytes × ℤ) (b : List (Bytes × ℤ)) → is_empty (a ++ e ∷ b) ≡ false
is_empty-append [] e b = refl
is_empty-append (x ∷ a) e b = refl

pub ne_of_not_empty : {x : Bytes} → is_empty x ≡ false → x ≢ []
ne_of_not_empty f e = let t = ap is_empty e in cc

pub empty_cases : {A : Type 0} (l : List A) → (l ≡ []) ⊎ (is_empty l ≡ false)
empty_cases [] = inl refl
empty_cases (x ∷ l) = inr refl

pub one_branch : {A : Type 0} (b c : Bool) (x : A) → (if b then x else if c then x else x) ≡ x
one_branch true c x = refl
one_branch false true x = refl
one_branch false false x = refl
