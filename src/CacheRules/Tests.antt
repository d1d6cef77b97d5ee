-- ===== src/CacheRules/Tests.antt =====
-- Rules that keep "/feed" and visitors with the cookie "id" out of the cache, and images for a time.
use elinproxy.Prelude.{
  ◌≡◌, ◌↔◌, refl, true, false, Option, none, some, if◌then◌else◌, [], ◌∷◌, ◌++◌,
}
use elinproxy.Prelude.Int.{ℤ, pos, wrap64, ◌+ℤ◌}
use elinproxy.Prelude.Assoc.{lookup}
use elinproxy.Lsm.File.{Bytes}
use elinproxy.CacheRules.{InternalRules}
use elinproxy.Text.{same}
use elinproxy.CacheRules.Request.{
  Request, method_get, is_req_cachable, is_req_cachable_ext, is_req_cachable_path_content,
  is_req_cachable_path_prefix, is_req_cachable_path_suffix, is_req_cachable_cookie_contains,
}
use elinproxy.CacheRules.Request.Admission.{PathAdmitted, CookiesAdmitted, is_req_cachable_iff}
use elinproxy.CacheRules.Response.{
  Response, is_resp_cachable, get_resp_status_code_ttl, is_valid_resp_header,
  get_resp_content_type_ttl, content_type_loop,
}
use elinproxy.CacheRules.Response.Lifetime.{Keeps, is_resp_cachable_iff}

abbrev feed : Bytes
feed = 47 ∷ 102 ∷ 101 ∷ 101 ∷ 100 ∷ []

abbrev id : Bytes
id = 105 ∷ 100 ∷ []

abbrev image : Bytes
image = 105 ∷ 109 ∷ 97 ∷ 103 ∷ 101 ∷ 47 ∷ []

abbrev rules : InternalRules
rules = record {
  no_req_ext = [];
  no_req_path_prefix = feed ∷ [];
  no_req_path_suffix = [];
  no_req_path_contains = [];
  no_req_cookie_contains = id ∷ [];
  no_req_headers = [];
  resp_headers_black_list = [];
  resp_content_type_ttl = (image, pos 7) ∷ [];
  resp_content_type_ttl_string = [];
  resp_status_code_ttl = (200, pos 60) ∷ (404, pos 5) ∷ [];
  resp_status_code_ttl_string = (52 ∷ 48 ∷ 52 ∷ [], 53 ∷ 115 ∷ []) ∷ [];
}

-- A GET of "/" by a visitor with a cookie "sid".
abbrev visit : Request
visit = record { method = method_get; path = 47 ∷ []; cookies = (115 ∷ id) ∷ [] }

-- "image/gif"
abbrev picture : Response
picture = record { status_code = 200; header = λ k. image ++ 103 ∷ 105 ∷ 102 ∷ [] }

visit_refreshes : is_req_cachable rules visit ≡ (false, true)
unfolding is_req_cachable is_req_cachable_ext is_req_cachable_path_content
    is_req_cachable_path_prefix is_req_cachable_path_suffix is_req_cachable_cookie_contains
visit_refreshes = refl

picture_kept : is_resp_cachable rules picture ≡ (pos 67, true)
unfolding is_resp_cachable get_resp_status_code_ttl is_valid_resp_header get_resp_content_type_ttl
    content_type_loop lookup wrap64 ◌+ℤ◌
picture_kept = refl

is_req_cachable_iff_example :
    ((is_req_cachable rules visit ≡ (true, false))
      ↔ (PathAdmitted rules visit × CookiesAdmitted rules visit))
    × ((is_req_cachable rules visit ≡ (false, true))
        ↔ (PathAdmitted rules visit × ¬ CookiesAdmitted rules visit))
is_req_cachable_iff_example = is_req_cachable_iff rules visit

is_resp_cachable_iff_example :
    (is_resp_cachable rules picture ≡ (pos 67, true)) ↔ Keeps rules picture (pos 67)
is_resp_cachable_iff_example = is_resp_cachable_iff rules picture (pos 67)

-- Parsers that know one text each: "404" and "5s".
abbrev one_number : Bytes → ℤ
one_number k = if same k (52 ∷ 48 ∷ 52 ∷ []) then pos 404 else pos 0

abbrev one_duration : Bytes → Option ℤ
one_duration v = if same v (53 ∷ 115 ∷ []) then some (pos 5000000000) else none
