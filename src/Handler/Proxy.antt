-- ===== src/Handler/Proxy.antt =====
-- `reverseProxy` of httpsrv/handler/handler.go with what it hands to httputil.ReverseProxy, and
-- `DumpResponse` of httpsrv/handler/utils.go. The transport is a parameter, together with what
-- ReverseProxy does to the headers that concern one connection only; so is the rate limiter, without
-- the headers that it adds. What is read of the client's connection and debug messages are left out.
pub mod Kept
use elinproxy.Prelude.{
  ℕ, ◌-◌, Bool, true, false, not, ◌&&◌, ◌||◌, Option, none, some, List, [], ◌∷◌, ◌++◌,
  if◌then◌else◌, ◌==◌, ◌>>=◌, length, take, leb,
}
use elinproxy.Prelude.Int.{ℤ, pos, pos_part, neg_part}
use elinproxy.Kvsm.Entry.{Ptr}
use elinproxy.Text.{Bytes, codes, same, has_suffix}
use elinproxy.HttpLog.{Request, Lines}
use elinproxy.CacheRules.{Rules}
use elinproxy.CacheRules.Response.{Response, is_resp_cachable, is_empty}
use elinproxy.Lsm.File.{Os}
use elinproxy.Lsm.Mem.{ItemMem, Header, write}
use elinproxy.Lsm.Disk.{ItemDisk}
use elinproxy.Lsm.Item.{Item, item_mem, item_disk}
use elinproxy.Lsm.Store
use elinproxy.Lsm.Store.{Lsm, Object, set_object}
use elinproxy.Handler.Headers.{get, set, del, del_all}
use elinproxy.Handler.Cached.{Reply}
pub use elinproxy.Handler.World.{
  Config, OutRequest, BackendResponse, AnyItem, in_memory, on_disk, World, Env, Fresh,
}
unfoldable pub use elinproxy.Handler.World.{as_item}

unfoldable pub is_secure : Config → Request → Bool
is_secure cfg r =
    (r.tls || same (get (codes "X-Forwarded-Protocol") r.headers) (codes "https"))
    && not (is_empty cfg.backend_tls_host)

unfoldable pub uri_of : Config → Request → Bytes
unfolding is_secure
uri_of cfg r =
    let base =
      (if is_secure cfg r
        then codes "https://" ++ (cfg.backend_tls_host ++ b':' ∷ (cfg.backend_tls_port ++ r.path))
        else codes "http://" ++ (cfg.backend_host ++ b':' ∷ (cfg.backend_port ++ r.path))) in
    elim r.raw_query [ [] ↦ base | c ∷ query ↦ base ++ b'?' ∷ c ∷ query ]

unfoldable pub backend_name : Config → (Bytes → Option Bytes) → Bytes → Bytes
backend_name cfg split_host_port full =
    let host : Bytes = elim (split_host_port full) [ none ↦ full | some name ↦ name ] in
    if has_suffix host cfg.domain_suffix
    then take (length host - length cfg.domain_suffix) host ++ b':' ∷ cfg.backend_port
    else full

-- buildBackendURL
unfoldable pub build_backend_url : Env → Request → OutRequest
unfolding uri_of backend_name
build_backend_url env r = record {
  method = r.method;
  uri = uri_of env.cfg r;
  host = backend_name env.cfg env.split_host_port r.host;
  headers = r.headers;
}

-- modifyRequest
unfoldable pub modify_request : Config → OutRequest → OutRequest
modify_request cfg req = record req {
  headers =
      del (codes "Range")
        (set (codes "Accept-Encoding") (codes "gzip") (del_all cfg.req_remove_headers req.headers));
}

-- Director
unfoldable pub director : Env → Bool → Request → OutRequest
unfolding build_backend_url modify_request
director env is_cachable r =
    let req = build_backend_url env r in if is_cachable then modify_request env.cfg req else req

abbrev pub private_headers : List Bytes
private_headers = codes "Set-Cache" ∷ codes "Proxy-Authenticate" ∷ codes "WWW-Authenticate" ∷ []

is_redirect : ℕ → Bool
is_redirect code = code == 301 || code == 302 || code == 307 || code == 308

-- The headers that are dropped, and the connection that is closed after a redirect.
unfoldable pub clean_response : Env → ℕ → BackendResponse → BackendResponse
unfolding is_redirect
clean_response env proto_major resp =
    let h = del_all env.cfg.resp_remove_headers (del_all private_headers resp.header) in
    let closing = leb proto_major 1 && is_redirect resp.status_code in
    record resp {
      header =
          set (codes "Last-Modified") env.date
            (if closing then set (codes "Connection") (codes "close") h else h);
      close = if closing then true else resp.close;
    }

-- drainBody: the body twice, or `none` for an error
unfoldable pub drain_body : BackendResponse → Option (Bytes × Bytes)
drain_body resp = if resp.breaks then none else some (resp.body, resp.body)

-- io.Copy to an item, up to the first write that fails
unfoldable pub copy_body : Os → List Bytes → ItemMem → ItemMem × Bool
copy_body os [] itm = (itm, false)
copy_body os (b ∷ bs) itm =
    let (itm', (n, failed)) = write os b itm in
    let rest = copy_body os bs itm' in if failed then (itm', true) else rest

-- DumpResponse with a body
unfoldable pub dump_response : Os → BackendResponse → ItemMem → Option (BackendResponse × ItemMem)
unfolding drain_body
dump_response os resp itm = do
  (save, rest) ← drain_body resp
  let (itm', failed) = copy_body os (os.chunks rest) itm
  if failed
      then none
      else some (record resp { body = save; content_length = pos (length rest) }, itm')

-- NewItem, and the fields that are set. The pool hands out an item whose fields are cleared; its
-- length is the capacity of a buffer only.
unfoldable pub new_item : ℕ → BackendResponse → ItemMem
new_item key resp = record {
  key = key;
  status_code = resp.status_code;
  header = resp.header;
  body = [];
  hit = 0;
  in_use = 0;
  written = 0;
  w = none;
}

unfoldable pub new_object : ℕ → BackendResponse → Object
new_object key resp = record {
  key = key;
  status_code = resp.status_code;
  hit = 0;
  in_use = 0;
  pooled = false;
}

-- The item in the heap and in the table. An entry ends at the sum of the clock and the TTL, which may
-- be below 0 for negative durations in the rules: it has then ended before. The list that the worker
-- keeps such an entry on is the one of the TTL 0 here.
unfoldable pub keep_item : Env → Fresh → ℕ → ℤ → BackendResponse → ItemMem → World → World
unfolding new_object
keep_item env (e, p) key ttl resp itm w =
    let at = env.now - neg_part ttl in
    record w {
      lsm = Store.set e p (pos_part ttl) at (set_object p (new_object key resp) w.lsm);
      items = λ q. if q == p then in_memory itm else w.items q;
    }

-- modifyResponse; without a response there was an error.
unfoldable pub modify_response :
    Env → Fresh → ℕ → ℕ → ℤ → BackendResponse → World → World × Option BackendResponse
modify_response env fresh proto_major key ttl resp w =
    let cleaned = clean_response env proto_major resp in
    elim (dump_response env.os cleaned (new_item key cleaned)) [
      | none ↦ (w, none)
      | some (resp', itm) ↦ (keep_item env fresh key ttl cleaned itm w, some resp')
    ]

unfoldable pub as_response : BackendResponse → Response
as_response resp = record { status_code = resp.status_code; header = λ k. get k resp.header }

-- ModifyResponse. The rules of a domain are not asked here.
unfoldable pub on_response :
    Env → Fresh → Bool → ℕ → ℕ → BackendResponse → World → World × Option BackendResponse
on_response env fresh is_cachable proto_major key resp w =
    if not env.cfg.has_cache || not is_cachable
    then (w, some resp)
    else (let (ttl, ok) = is_resp_cachable env.rules.general (as_response resp) in
        if not ok then (w, some resp) else modify_response env fresh proto_major key ttl resp w)

-- ErrorHandler, and badGateway for a refusal
abbrev pub bad_gateway : ℕ → Bytes → Reply
bad_gateway code message = record { status = code; headers = []; body = message }

abbrev pub status_bad_gateway : ℕ
status_bad_gateway = 502

unfoldable pub backend_error : Reply
backend_error = bad_gateway status_bad_gateway (codes "Backend error response")

-- The response is passed on up to where its body breaks off. ReverseProxy then panics with
-- http.ErrAbortHandler, which the last component tells.
unfoldable pub delivered : World × Option BackendResponse → World × Reply × Bool
unfolding backend_error
delivered (w, none) = (w, backend_error, false)
delivered (w, some resp) =
    (w, record { status = resp.status_code; headers = resp.header; body = resp.body }, resp.breaks)

-- What the client is sent, whether the limiter refused the request, and whether it ended with a panic
-- in the middle of the body.
pub record Proxied : Type 0 where
  pub world : World
  pub reply : Reply
  pub refused : Bool
  pub aborted : Bool

unfoldable pub ask_backend : Env → Fresh → Bool → ℕ → Request → World → World × Reply × Bool
ask_backend env fresh is_cachable key r w = elim (env.round_trip (director env is_cachable r)) [
  | none ↦ (w, backend_error, false)
  | some resp ↦ delivered (on_response env fresh is_cachable r.proto_major key resp w)
]

-- reverseProxy
unfoldable pub reverse_proxy : Env → Fresh → Bool → ℕ → Request → World → Proxied
reverse_proxy env fresh is_cachable key r w = elim env.limited [
  | some (code, message) ↦ record {
    world = w;
    reply = bad_gateway code message;
    refused = true;
    aborted = false;
  }
  | none ↦
      let (w', reply, aborted) = ask_backend env fresh is_cachable key r w in
      record { world = w'; reply = reply; refused = false; aborted = aborted }
]
