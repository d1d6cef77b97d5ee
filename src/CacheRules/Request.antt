-- ===== src/CacheRules/Request.antt =====
-- httpsrv/cacherules/req.go: which requests may be answered from the cache. A request is what
-- net/http has parsed: its method, its path and the names of its cookies.
pub mod Admission
use elinproxy.Prelude.{ℕ, Bool, true, false, not, ◌&&◌, ◌||◌, List, [], ◌∷◌, if◌then◌else◌}
use elinproxy.Lsm.File.{Bytes}
use elinproxy.CacheRules.{InternalRules}
use elinproxy.Text.{same, has_prefix, has_suffix, contains, none_of}

pub record Request : Type 0 where
  pub method : Bytes
  pub path : Bytes
  pub cookies : List Bytes

-- "GET"
abbrev pub method_get : Bytes
method_get = 71 ∷ 69 ∷ 84 ∷ []

-- "HEAD"
abbrev pub method_head : Bytes
method_head = 72 ∷ 69 ∷ 65 ∷ 68 ∷ []

unfoldable pub is_req_cachable_ext : InternalRules → Request → Bool
is_req_cachable_ext ir req = none_of (λ v. has_suffix req.path v) ir.no_req_ext

unfoldable pub is_req_cachable_path_content : InternalRules → Request → Bool
is_req_cachable_path_content ir req = none_of (λ v. contains req.path v) ir.no_req_path_contains

unfoldable pub is_req_cachable_path_prefix : InternalRules → Request → Bool
is_req_cachable_path_prefix ir req = none_of (λ v. has_prefix req.path v) ir.no_req_path_prefix

unfoldable pub is_req_cachable_path_suffix : InternalRules → Request → Bool
is_req_cachable_path_suffix ir req = none_of (λ v. has_suffix req.path v) ir.no_req_path_suffix

-- The inner loop over the cookies of the request, for one rule.
abbrev pub cookie_refused : List Bytes → Bytes → Bool
cookie_refused cookies v = not (none_of (λ c. contains c v) cookies)

unfoldable pub is_req_cachable_cookie_contains : InternalRules → Request → Bool
is_req_cachable_cookie_contains ir req =
    none_of (cookie_refused req.cookies) ir.no_req_cookie_contains

-- (ok, refresh)
unfoldable pub is_req_cachable : InternalRules → Request → Bool × Bool
is_req_cachable ir req =
    if not (same req.method method_get) && not (same req.method method_head)
    then (false, false)
    else if not (is_req_cachable_ext ir req)
    then (false, false)
    else if not (is_req_cachable_path_content ir req)
    then (false, false)
    else if not (is_req_cachable_path_prefix ir req)
    then (false, false)
    else if not (is_req_cachable_path_suffix ir req)
    then (false, false)
    else if not (is_req_cachable_cookie_contains ir req)
    then (false, true)
    else (true, false)
