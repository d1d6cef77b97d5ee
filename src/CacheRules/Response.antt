-- ===== src/CacheRules/Response.antt =====
-- httpsrv/cacherules/resp.go: whether a response may be kept, and for how long. `header` is
-- `resp.Header.Get`: the empty string where there is no such header.
mod Loops
pub mod Lifetime
use elinproxy.Prelude.{
  ℕ, Bool, true, false, not, ◌&&◌, ◌||◌, Option, none, some, List, [], ◌∷◌, if◌then◌else◌, ◌==◌,
}
use elinproxy.Prelude.Assoc.{lookup}
use elinproxy.Prelude.Int.{ℤ, ◌+ℤ◌, wrap64}
use elinproxy.Lsm.File.{Bytes}
use elinproxy.CacheRules.{InternalRules, default_ttl}
use elinproxy.Text.{contains, none_of}

pub record Response : Type 0 where
  pub status_code : ℕ
  pub header : Bytes → Bytes

abbrev pub status_ok : ℕ
status_ok = 200

-- "Content-Type"
abbrev pub content_type : Bytes
content_type = 67 ∷ 111 ∷ 110 ∷ 116 ∷ 101 ∷ 110 ∷ 116 ∷ 45 ∷ 84 ∷ 121 ∷ 112 ∷ 101 ∷ []

abbrev pub is_empty {ℓ} : {A : Type ℓ} → List A → Bool
is_empty [] = true
is_empty (x ∷ xs) = false

-- (ttl, cachable, last)
unfoldable pub get_resp_status_code_ttl : InternalRules → Response → ℤ × Bool × Bool
get_resp_status_code_ttl ir resp =
    if is_empty ir.resp_status_code_ttl
    then (default_ttl, true, false)
    else elim (lookup resp.status_code ir.resp_status_code_ttl) [
      | some v ↦ if resp.status_code == status_ok then (v, true, false) else (v, true, true)
      | none ↦ (default_ttl, false, true)
    ]

-- The inner loop, for one header of the black list: whether it makes the response invalid.
abbrev pub header_refused : Response → Bytes × List Bytes → Bool
header_refused resp (k, vs) =
    let head_value = resp.header k in
    if is_empty head_value then false else not (none_of (λ s. contains head_value s) vs)

unfoldable pub is_valid_resp_header : InternalRules → Response → Bool
is_valid_resp_header ir resp =
    if is_empty ir.resp_headers_black_list
    then true
    else none_of (header_refused resp) ir.resp_headers_black_list

-- The loop over the content types.
unfoldable pub content_type_loop : ℤ → Bytes → List (Bytes × ℤ) → ℤ × Bool
content_type_loop ttl value [] = (ttl, false)
content_type_loop ttl value ((k, v) ∷ rules) =
    if contains value k then (wrap64 (ttl +ℤ v), true) else content_type_loop ttl value rules

unfoldable pub get_resp_content_type_ttl : InternalRules → ℤ → Response → ℤ × Bool
unfolding content_type_loop
get_resp_content_type_ttl ir ttl resp =
    let value = resp.header content_type in
    if is_empty value
    then (ttl, false)
    else if is_empty ir.resp_content_type_ttl
    then (ttl, false)
    else content_type_loop ttl value ir.resp_content_type_ttl

-- (ttl, ok)
unfoldable pub is_resp_cachable : InternalRules → Response → ℤ × Bool
unfolding get_resp_status_code_ttl is_valid_resp_header get_resp_content_type_ttl
is_resp_cachable ir resp =
    let (ttl, ok, last) = get_resp_status_code_ttl ir resp in
    if not ok || last
    then (ttl, ok)
    else if not (is_valid_resp_header ir resp)
    then (ttl, false)
    else (let (ttl', found) = get_resp_content_type_ttl ir ttl resp in
        if found then (ttl', found) else (ttl', true))
