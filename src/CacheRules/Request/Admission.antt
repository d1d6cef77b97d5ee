-- ===== src/CacheRules/Request/Admission.antt =====
-- What the checks of httpsrv/cacherules/req.go decide together.
use elinproxy.Prelude.{
  ◌≡◌, refl, ap, ◌↔◌, ◌⊎◌, inl, inr, Bool, true, false, not, ◌&&◌, List, if◌then◌else◌, arith, sym,
  subst,
}
use elinproxy.Lsm.File.{Bytes}
use elinproxy.CacheRules.{InternalRules}
use elinproxy.Text.{
  same, same_eq, Starts, Ends, Within, has_prefix, has_suffix, contains, has_prefix_iff,
  has_suffix_iff, contains_iff, NoneOf, none_of_iff, not-none_of_iff,
}
use elinproxy.CacheRules.Request.{
  Request, method_get, method_head, cookie_refused, is_req_cachable, is_req_cachable_ext,
  is_req_cachable_path_content, is_req_cachable_path_prefix, is_req_cachable_path_suffix,
  is_req_cachable_cookie_contains,
}

-- The request reads, and no rule on paths holds of it.
pub record PathAdmitted (ir : InternalRules) (req : Request) : Type 0 where
  pub method : (req.method ≡ method_get) ⊎ (req.method ≡ method_head)
  pub ext : NoneOf (Ends req.path) ir.no_req_ext
  pub content : NoneOf (Within req.path) ir.no_req_path_contains
  pub prefix : NoneOf (Starts req.path) ir.no_req_path_prefix
  pub suffix : NoneOf (Ends req.path) ir.no_req_path_suffix

-- No cookie has a name that a rule on cookies holds of.
abbrev pub CookiesAdmitted : InternalRules → Request → Type 0
CookiesAdmitted ir req =
    NoneOf (λ v. ¬ NoneOf (λ c. Within c v) req.cookies) ir.no_req_cookie_contains

cookie_iff :
    (cookies : List Bytes) (v : Bytes)
    → (cookie_refused cookies v ≡ true) ↔ ¬ NoneOf (λ c. Within c v) cookies
cookie_iff cookies v =
    not-none_of_iff (λ c. contains c v) (λ c. Within c v) (λ c. contains_iff c v) cookies

either : (a b : Bool) → (not a && not b) ≡ false → (a ≡ true) ⊎ (b ≡ true)
either true b h = inl refl
either false true h = inr refl
either false false h = cc

map_either : {A B C D : Type 0} → (A → C) → (B → D) → A ⊎ B → C ⊎ D
map_either f g (inl a) = inl (f a)
map_either f g (inr b) = inr (g b)

all_five :
    (m e c p s : Bool)
    → (not m && (e && (c && (p && s)))) ≡ true
    → (m ≡ false) × (e ≡ true) × (c ≡ true) × (p ≡ true) × (s ≡ true)
all_five m e c p s h = ground arith

abbrev answer : Bool → Bool → Bool × Bool
answer a k = (a && k, a && not k)

chain :
    (m e c p s k : Bool)
    → ◌≡◌ {A = Bool × Bool}
        (if m
          then (false, false)
          else if not e
          then (false, false)
          else if not c
          then (false, false)
          else if not p
          then (false, false)
          else if not s
          then (false, false)
          else if not k
          then (false, true)
          else (true, false))
        (answer (not m && (e && (c && (p && s)))) k)
chain true e c p s k = refl
chain false false c p s k = refl
chain false true false p s k = refl
chain false true true false s k = refl
chain false true true true false k = refl
chain false true true true true true = refl
chain false true true true true false = refl

-- The two results, read off the two tests.
verdict :
    (a k : Bool) {P Q : Type 0}
    → (a ≡ true) ↔ P
    → (k ≡ true) ↔ Q
    → ((answer a k ≡ (true, false)) ↔ (P × Q)) × ((answer a k ≡ (false, true)) ↔ (P × ¬ Q))
verdict true true p q = (
  (λ h. (p.0 refl, q.0 refl), λ h. refl),
  (λ h. let x = ap (λ r. r.0) h in cc, λ h. absurd (h.1 (q.0 refl))),
)
verdict true false p q = (
  (λ h. let x = ap (λ r. r.0) h in cc, λ h. let x = q.1 h.1 in cc),
  (λ h. (p.0 refl, λ y. let x = q.1 y in cc), λ h. refl),
)
verdict false k p q = (
  (λ h. let x = ap (λ r. r.0) h in cc, λ h. let x = p.1 h.0 in cc),
  (λ h. let x = ap (λ r. r.1) h in cc, λ h. let x = p.1 h.0 in cc),
)

module _ (ir : InternalRules) (req : Request) where
  abbrev refuses : Bool
  refuses = not (same req.method method_get) && not (same req.method method_head)

  abbrev Unread : Bytes → Type 0
  Unread m = (not (same m method_get) && not (same m method_head)) ≡ false

  method_iff : (refuses ≡ false) ↔ (req.method ≡ method_get) ⊎ (req.method ≡ method_head)
  method_iff = (
    λ h.
        map_either (same_eq req.method method_get) (same_eq req.method method_head)
          (either (same req.method method_get) (same req.method method_head) h),
    λ m. elim m [ inl e ↦ subst Unread (sym e) refl | inr e ↦ subst Unread (sym e) refl ],
  )

  abbrev paths : Bool
  paths =
      not refuses
      && (is_req_cachable_ext ir req
          && (is_req_cachable_path_content ir req
              && (is_req_cachable_path_prefix ir req && is_req_cachable_path_suffix ir req)))

  decided : is_req_cachable ir req ≡ answer paths (is_req_cachable_cookie_contains ir req)
  unfolding is_req_cachable
  decided =
      chain refuses (is_req_cachable_ext ir req) (is_req_cachable_path_content ir req)
        (is_req_cachable_path_prefix ir req) (is_req_cachable_path_suffix ir req)
        (is_req_cachable_cookie_contains ir req)

  paths_iff : (paths ≡ true) ↔ PathAdmitted ir req
  unfolding is_req_cachable_ext is_req_cachable_path_content is_req_cachable_path_prefix
      is_req_cachable_path_suffix
  paths_iff =
      let ext =
        none_of_iff (λ v. has_suffix req.path v) (Ends req.path) (has_suffix_iff req.path)
          ir.no_req_ext in
      let content =
        none_of_iff (λ v. contains req.path v) (Within req.path) (contains_iff req.path)
          ir.no_req_path_contains in
      let prefix =
        none_of_iff (λ v. has_prefix req.path v) (Starts req.path) (has_prefix_iff req.path)
          ir.no_req_path_prefix in
      let suffix =
        none_of_iff (λ v. has_suffix req.path v) (Ends req.path) (has_suffix_iff req.path)
          ir.no_req_path_suffix in
      (
        λ h.
            let (m, e, c, p, s) =
              all_five refuses (is_req_cachable_ext ir req) (is_req_cachable_path_content ir req)
                (is_req_cachable_path_prefix ir req) (is_req_cachable_path_suffix ir req) h in
            record {
              method = method_iff.0 m;
              ext = ext.0 e;
              content = content.0 c;
              prefix = prefix.0 p;
              suffix = suffix.0 s;
            },
        λ a.
            rw
              (
                method_iff.1 a.method,
                ext.1 a.ext,
                content.1 a.content,
                prefix.1 a.prefix,
                suffix.1 a.suffix,
              )
              refl,
      )

  cookies_iff : (is_req_cachable_cookie_contains ir req ≡ true) ↔ CookiesAdmitted ir req
  unfolding is_req_cachable_cookie_contains
  cookies_iff =
      none_of_iff (cookie_refused req.cookies) (λ v. ¬ NoneOf (λ c. Within c v) req.cookies)
        (cookie_iff req.cookies) ir.no_req_cookie_contains

  -- A request is served from the cache exactly when it is a GET or a HEAD and no rule on its path
  -- or its cookies holds of it; it refreshes the cache exactly when a rule on cookies alone holds.
  pub is_req_cachable_iff :
      ((is_req_cachable ir req ≡ (true, false)) ↔ (PathAdmitted ir req × CookiesAdmitted ir req))
      × ((is_req_cachable ir req ≡ (false, true))
          ↔ (PathAdmitted ir req × ¬ CookiesAdmitted ir req))
  is_req_cachable_iff =
      rw decided (verdict paths (is_req_cachable_cookie_contains ir req) paths_iff cookies_iff)
