-- ===== src/CacheRules.antt =====
-- What may be cached, and for how long: httpsrv/cacherules/cacherules.go.
pub mod Request
pub mod Response
pub mod Config
mod Tests
use elinproxy.Prelude.{ℕ, List, Option}
use elinproxy.Prelude.Int.{ℤ, pos}
use elinproxy.Lsm.File.{Bytes}

-- A Go map of the rules is the list of its entries, in the order of the iteration at hand: a Go
-- program may meet them in any. Durations count nanoseconds.
pub record InternalRules : Type 0 where
  pub no_req_ext : List Bytes
  pub no_req_path_prefix : List Bytes
  pub no_req_path_suffix : List Bytes
  pub no_req_path_contains : List Bytes
  pub no_req_cookie_contains : List Bytes
  pub no_req_headers : List (Bytes × Bytes)
  pub resp_headers_black_list : List (Bytes × List Bytes)
  pub resp_content_type_ttl : List (Bytes × ℤ)
  pub resp_content_type_ttl_string : List (Bytes × Bytes)
  pub resp_status_code_ttl : List (ℕ × ℤ)
  pub resp_status_code_ttl_string : List (Bytes × Bytes)

-- The rules, and those of single hosts.
pub record Rules : Type 0 where
  pub general : InternalRules
  pub domain : List (Bytes × InternalRules)

-- One hour.
abbrev pub default_ttl : ℤ
default_ttl = pos 3600000000000
