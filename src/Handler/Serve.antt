-- ===== src/Handler/Serve.antt =====
-- `ServeHTTP` of httpsrv/handler/handler.go, for one request. The store moves on between two
-- requests only, but for a request that waits for another: `Turn` says what it meets.
pub mod Uncached
pub mod Steps
pub mod Stored
pub mod Once
pub mod Logged
mod Tests
pub mod Replay
use elinproxy.Prelude.{
  ℕ, Bool, true, false, not, Option, none, some, List, [], ◌∷◌, if◌then◌else◌, ◌>>=◌, length,
}
use elinproxy.Kvsm.Entry.{Ptr}
use elinproxy.Text.{Bytes, codes, same}
use elinproxy.HttpLog.{
  Request, HttpLog, new, get_key_str, get_key_str_device, write, write_header, done,
}
use elinproxy.CacheRules.{Rules, InternalRules}
use elinproxy.CacheRules.Request.{is_req_cachable}
use elinproxy.CacheRules.Request
use elinproxy.Lsm.Store
use elinproxy.Lsm.Store.{Lsm}
use elinproxy.Handler.Headers.{get}
use elinproxy.Handler.Cached.{Reply, hide, custom_tags, respond_from_cache}
use elinproxy.Handler.Proxy.{
  Env, World, Fresh, Proxied, as_item, reverse_proxy, bad_gateway, status_bad_gateway,
}

-- With BackendOnce, a request that missed the cache is the one that goes to the backend, or that one
-- but over the time limit twice, or it waits for another, which leaves the world as given, or it waits
-- too long.
pub data Turn : Type 0 where
  leads gives_up waits_too_long : Turn
  follows : World → Turn

-- What the client is sent, where `aborted` tells that the handler ended with http.ErrAbortHandler: the
-- body then breaks off, and net/http cuts the connection.
pub record Served : Type 0 where
  pub world : World
  pub reply : Option Reply
  pub log : HttpLog
  pub aborted : Bool

rule_view : Request → Request.Request
rule_view r = record { method = r.method; path = r.path; cookies = r.cookies }

unfoldable pub domain_rules : Bytes → List (Bytes × InternalRules) → Option InternalRules
domain_rules host [] = none
domain_rules host ((name, ir) ∷ rest) = if same name host then some ir else domain_rules host rest

-- (isCachable, isRefreshable); the rules of the host replace the general ones.
unfoldable pub admitted : Rules → Request → Bool × Bool
unfolding rule_view
admitted rules r =
    let (cachable, refreshable) = is_req_cachable rules.general (rule_view r) in
    if cachable
    then elim (domain_rules r.host rules.domain) [
      | none ↦ (cachable, refreshable)
      | some ir ↦ is_req_cachable ir (rule_view r)
    ]
    else (cachable, refreshable)

-- The loop over uaDeviceCleaner deletes the keys of the devices 0 to 4.
abbrev pub ua_device_cleaner : List ℕ
ua_device_cleaner = 0 ∷ 1 ∷ 2 ∷ 3 ∷ 4 ∷ []

unfoldable pub refresh : (Bytes → ℕ) → HttpLog → List ℕ → Lsm → Lsm
refresh hash hl [] c = c
refresh hash hl (i ∷ is) c = refresh hash hl is (Store.delete (hash (get_key_str_device hl i)) c)

-- The reply through the log, and the end of the request.
unfoldable pub finish : Env → Reply → HttpLog → World → Served
finish env r hl w =
    let tags = custom_tags env.cfg.custom_tags r.headers in
    let hl' = write env.now (length r.body) (write_header r.status tags hl) in
    record {
      world = record w { lines = done hl' w.lines };
      reply = some (hide env.cfg.resp_remove_headers r);
      log = hl';
      aborted = false;
    }

-- The end without the log's writer.
unfoldable pub finish_with : Option Reply → HttpLog → World → Served
finish_with reply hl w = record {
  world = record w { lines = done hl w.lines };
  reply = reply;
  log = hl;
  aborted = false;
}

-- `if err := handler.reverseProxy(…); err != nil { hlog.RateLimit = true }`; the deferred Done of the
-- log runs also where reverseProxy panics.
unfoldable pub serve_proxied : Env → Fresh → Bool → ℕ → Request → HttpLog → World → Served
serve_proxied env fresh is_cachable key r hl w =
    let p = reverse_proxy env fresh is_cachable key r w in
    record (finish env p.reply (record hl { rate_limit = p.refused }) p.world) {
      aborted = p.aborted;
    }

-- respondFromCache, and what follows where it does not answer
unfoldable pub try_cache :
    Env → ℕ → Request → HttpLog → World → (World → Option Served) → Option Served
try_cache env key r hl w otherwise = do
  (c, answer) ←
      respond_from_cache (λ p. as_item env (w.items p)) env.now key (get (codes "Range") r.headers)
        w.lsm
  elim answer [
    | some reply ↦ some (finish env reply (record hl { hit = true }) (record w { lsm = c }))
    | none ↦ otherwise (record w { lsm = c })
  ]

unfoldable pub wait_too_long : HttpLog → World → Served
unfolding finish_with
wait_too_long hl w =
    finish_with (some (bad_gateway status_bad_gateway (codes "RFC 7231, 6.6.3"))) hl w

-- On to the backend, where the cache did not answer.
unfoldable pub ask : Env → Fresh → ℕ → Request → HttpLog → World → Option Served
ask env fresh key r hl w = some (serve_proxied env fresh true key r hl w)

-- The one request that goes to the backend is proxied by a goroutine of its own, which nothing recovers:
-- its panic ends the program.
unfoldable pub ask_once : Served → Option Served
ask_once s = if s.aborted then none else some s

-- The turn of a request that missed the cache.
unfoldable pub serve_missed : Env → Turn → Fresh → ℕ → Request → HttpLog → World → Option Served
unfolding ask_once
serve_missed env leads fresh key r hl w = ask_once (serve_proxied env fresh true key r hl w)
serve_missed env gives_up fresh key r hl w = some (finish_with none hl w)
serve_missed env waits_too_long fresh key r hl w = some (wait_too_long hl w)
serve_missed env (follows w') fresh key r hl w = try_cache env key r hl w' (ask env fresh key r hl)

-- What follows where the cache does not answer.
unfoldable pub after_miss : Env → Turn → Fresh → ℕ → Request → HttpLog → World → Option Served
after_miss env turn fresh key r hl w =
    if not env.cfg.backend_once
    then ask env fresh key r hl w
    else serve_missed env turn fresh key r hl w

-- ServeHTTP; `none` is a panic that ends the program, or an item that does not end.
unfoldable pub serve_http : Env → Turn → Fresh → Request → World → Option Served
serve_http env turn fresh r w =
    let hl = new env.split_host_port env.device_of r in
    let key = env.hash (get_key_str hl) in
    let (cachable, refreshable) = admitted env.rules r in
    if not cachable
    then (let c = if refreshable then refresh env.hash hl ua_device_cleaner w.lsm else w.lsm in
        some (serve_proxied env fresh false key r hl (record w { lsm = c })))
    else try_cache env key r hl w (after_miss env turn fresh key r hl)
