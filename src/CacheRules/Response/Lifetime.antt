-- ===== src/CacheRules/Response/Lifetime.antt =====
-- What httpsrv/cacherules/resp.go makes of a response.
use elinproxy.Prelude.{
  ◌≡◌, ◌≢◌, refl, ap, sym, ◌∙◌, subst, ◌↔◌, ◌⊎◌, inl, inr, true, false, some, List, [], ◌∷◌, ◌++◌,
  Bool-cases, ◌==◌, ==_ne, ==_iff, Option-cases,
}
use elinproxy.Prelude.Assoc.{lookup}
use elinproxy.Prelude.Int.{ℤ, ◌+ℤ◌, wrap64}
use elinproxy.Lsm.File.{Bytes}
use elinproxy.CacheRules.{InternalRules, default_ttl}
use elinproxy.Text.{Within, NoneOf}
use elinproxy.CacheRules.Response.{
  Response, status_ok, content_type, is_empty, get_resp_status_code_ttl, is_valid_resp_header,
  get_resp_content_type_ttl, is_resp_cachable,
}
use elinproxy.CacheRules.Response.Loops.{
  Refuses, Names, black_list_iff, lookup-not_empty, loop_miss, loop_hit, first_rule, is_empty-ne,
  is_empty-append, ne_of_not_empty, empty_cases, one_branch,
}

module _ (ir : InternalRules) (resp : Response) where
  valid_iff :
      (is_valid_resp_header ir resp ≡ true) ↔ NoneOf (Refuses resp) ir.resp_headers_black_list
  unfolding is_valid_resp_header
  valid_iff = black_list_iff resp ir.resp_headers_black_list

  -- Where the table of codes leaves the decision open, and the lifetime that it gives.
  pub data Open : ℤ → Type 0 where
    no_table : ir.resp_status_code_ttl ≡ [] → Open default_ttl
    ok_code :
        (v : ℤ)
        → lookup resp.status_code ir.resp_status_code_ttl ≡ some v
        → resp.status_code ≡ status_ok
        → Open v

  Open-code : (base : ℤ) → Open base → get_resp_status_code_ttl ir resp ≡ (base, true, false)
  unfolding get_resp_status_code_ttl
  Open-code base (no_table e) = rw e refl
  Open-code base (ok_code v at ok) =
      rw (lookup-not_empty resp.status_code ir.resp_status_code_ttl at, at, ok) refl

  untyped :
      (base : ℤ)
      → (resp.header content_type ≡ [])
        ⊎ NoneOf (Names (resp.header content_type)) ir.resp_content_type_ttl
      → get_resp_content_type_ttl ir base resp ≡ (base, false)
  unfolding get_resp_content_type_ttl
  untyped base (inl e) = rw e refl
  untyped base (inr n) = rw (loop_miss base (resp.header content_type) ir.resp_content_type_ttl n) (
      one_branch (is_empty (resp.header content_type)) (is_empty ir.resp_content_type_ttl)
        (base, false))

  typed :
      (base v : ℤ) (k : Bytes) (before after : List (Bytes × ℤ))
      → resp.header content_type ≢ []
      → ir.resp_content_type_ttl ≡ before ++ (k, v) ∷ after
      → NoneOf (Names (resp.header content_type)) before
      → Within (resp.header content_type) k
      → get_resp_content_type_ttl ir base resp ≡ (wrap64 (base +ℤ v), true)
  unfolding get_resp_content_type_ttl
  typed base v k before after ne at miss hit =
      rw (is_empty-ne (resp.header content_type) ne, at, is_empty-append before (k, v) after)
        (loop_hit base v (resp.header content_type) k before after miss hit)

  -- The rules keep the response for that long: the table of codes alone says so, or it leaves the
  -- decision open, no header is on the black list, and the first rule on content types, if there is
  -- one, adds its lifetime.
  pub data Keeps : ℤ → Type 0 where
    final :
        (v : ℤ)
        → lookup resp.status_code ir.resp_status_code_ttl ≡ some v
        → ¬ (resp.status_code ≡ status_ok)
        → Keeps v
    plain :
        (base : ℤ)
        → Open base
        → NoneOf (Refuses resp) ir.resp_headers_black_list
        → (resp.header content_type ≡ [])
          ⊎ NoneOf (Names (resp.header content_type)) ir.resp_content_type_ttl
        → Keeps base
    added :
        (base v : ℤ) (k : Bytes) (before after : List (Bytes × ℤ))
        → Open base
        → NoneOf (Refuses resp) ir.resp_headers_black_list
        → resp.header content_type ≢ []
        → ir.resp_content_type_ttl ≡ before ++ (k, v) ∷ after
        → NoneOf (Names (resp.header content_type)) before
        → Within (resp.header content_type) k
        → Keeps (wrap64 (base +ℤ v))

  Keeps-is_resp_cachable : (ttl : ℤ) → Keeps ttl → is_resp_cachable ir resp ≡ (ttl, true)
  unfolding is_resp_cachable
  Keeps-is_resp_cachable ttl (final v at other) =
      rw (lookup-not_empty resp.status_code ir.resp_status_code_ttl at, get_resp_status_code_ttl)
        (rw (at, ==_ne resp.status_code status_ok other) refl)
  Keeps-is_resp_cachable ttl (plain base o valid u) =
      rw (Open-code base o) (rw (valid_iff.1 valid) (rw (untyped base u) refl))
  Keeps-is_resp_cachable ttl (added base v k before after o valid ne at miss hit) =
      rw (Open-code base o)
        (rw (valid_iff.1 valid) (rw (typed base v k before after ne at miss hit) refl))

  -- What the table of codes says, in all.
  code_cases :
      ((base : ℤ) × Open base)
      ⊎ ((v : ℤ) × (lookup resp.status_code ir.resp_status_code_ttl ≡ some v)
          × ¬ (resp.status_code ≡ status_ok))
      ⊎ ((is_resp_cachable ir resp).1 ≡ false)
  unfolding is_resp_cachable get_resp_status_code_ttl
  code_cases = elim (empty_cases ir.resp_status_code_ttl) [
    | inl e ↦ inl (default_ttl, no_table e)
    | inr some_code ↦ elim (Option-cases (lookup resp.status_code ir.resp_status_code_ttl)) [
      | inl missing ↦ inr (inr (rw (some_code, missing) refl))
      | inr (v, at) ↦ elim (Bool-cases (resp.status_code == status_ok)) [
        | inl t ↦ inl (v, ok_code v at ((==_iff resp.status_code status_ok).0 t))
        | inr f ↦ inr (inl (v, at, λ e. let t = (==_iff resp.status_code status_ok).1 e in cc))
      ]
    ]
  ]

  -- The rule on content types that an open decision meets.
  kept-Open :
      (base : ℤ)
      → Open base
      → NoneOf (Refuses resp) ir.resp_headers_black_list
      → (ttl : ℤ) × Keeps ttl
  kept-Open base o valid = elim (empty_cases (resp.header content_type)) [
    | inl e ↦ (base, plain base o valid (inl e))
    | inr value ↦ elim (first_rule (resp.header content_type) ir.resp_content_type_ttl) [
      | inl n ↦ (base, plain base o valid (inr n))
      | inr (k, v, before, after, at, miss, hit) ↦ (
        wrap64 (base +ℤ v),
        added base v k before after o valid (ne_of_not_empty value) at miss hit,
      )
    ]
  ]

  kept_or_not : ((ttl : ℤ) × Keeps ttl) ⊎ ((is_resp_cachable ir resp).1 ≡ false)
  unfolding is_resp_cachable
  kept_or_not = elim code_cases [
    | inr (inr refused) ↦ inr refused
    | inr (inl (v, at, other)) ↦ inl (v, final v at other)
    | inl (base, o) ↦ elim (Bool-cases (is_valid_resp_header ir resp)) [
      | inr bad ↦ inr (rw (Open-code base o) (rw bad refl))
      | inl good ↦ inl (kept-Open base o (valid_iff.0 good))
    ]
  ]

  is_resp_cachable-Keeps : (ttl : ℤ) → is_resp_cachable ir resp ≡ (ttl, true) → Keeps ttl
  is_resp_cachable-Keeps ttl e = elim kept_or_not [
    | inl (t, k) ↦ subst Keeps (ap (λ r. r.0) (sym (Keeps-is_resp_cachable t k) ∙ e)) k
    | inr refused ↦ let yes = ap (λ r. r.1) e in cc
  ]

  -- A response is kept, and for that long, exactly when the rules say so: by the table of codes
  -- alone, or, where that leaves it open, with no header on the black list and the lifetime of the
  -- first matching content type added.
  pub is_resp_cachable_iff : (ttl : ℤ) → (is_resp_cachable ir resp ≡ (ttl, true)) ↔ Keeps ttl
  is_resp_cachable_iff ttl = (is_resp_cachable-Keeps ttl, Keeps-is_resp_cachable ttl)
