-- ===== src/Handler/Serve/Steps.antt =====
-- The steps of ServeHTTP (httpsrv/handler/handler.go) on a miss and on a hit.
use elinproxy.Prelude.{ℕ, ◌≡◌, refl, ◌∙◌, Bool, true, false, Option, none, some, not, if◌then◌else◌}
use elinproxy.Kvsm.Entry.{Ptr}
use elinproxy.Kvsm.Store
use elinproxy.Kvsm.Reads.{missing}
use elinproxy.Text.{Bytes, codes}
use elinproxy.HttpLog.{Request, HttpLog, new, get_key_str}
use elinproxy.Lsm.Store.{Lsm, get, done, found_item}
use elinproxy.Handler.Headers
use elinproxy.Handler.Cached.{Reply, respond, respond_from_cache}
use elinproxy.Handler.Proxy.{Env, World, Fresh, BackendResponse, OutRequest, as_item}
use elinproxy.Handler.Serve.{
  Turn, leads, follows, Served, admitted, finish, serve_proxied, try_cache, serve_missed,
  serve_http, after_miss, ask, ask_once,
}

abbrev pub log_of : Env → Request → HttpLog
log_of env r = new env.split_host_port env.device_of r

abbrev pub key_of : Env → Request → ℕ
key_of env r = env.hash (get_key_str (log_of env r))

get_missing :
    (now key : ℕ) (c : Lsm)
    → Store.get now key c.mem ≡ some missing
    → get now key c ≡ some (c, none)
unfolding get found_item
get_missing now key c e = rw (e, get) refl

-- A request whose key is not in the store goes on to the backend.
try_cache_miss :
    (env : Env) (key : ℕ) (r : Request) (hl : HttpLog) (w : World)
    (otherwise : World → Option Served)
    → Store.get env.now key w.lsm.mem ≡ some missing
    → try_cache env key r hl w otherwise ≡ otherwise w
unfolding try_cache respond_from_cache
try_cache_miss env key r hl w otherwise e = rw (get_missing env.now key w.lsm e, try_cache) refl

-- A request whose key is in the store is answered with its item.
pub try_cache_hit :
    (env : Env) (key : ℕ) (r : Request) (hl : HttpLog) (w : World)
    (otherwise : World → Option Served) (c : Lsm) (p : Ptr) (expired : Bool) (reply : Reply)
    → get env.now key w.lsm ≡ some (c, some (p, expired))
    → respond
        (as_item env (w.items p))
        (c.objects p)
        expired
        (Headers.get (codes "Range") r.headers)
      ≡ some (some reply)
    → try_cache env key r hl w otherwise
      ≡ some (finish env reply (record hl { hit = true }) (record w { lsm = done p c }))
unfolding try_cache respond_from_cache
try_cache_hit env key r hl w otherwise c p expired reply found answer =
    rw (found, try_cache) (rw (answer, try_cache) refl)

-- A request that the rules admit tries the cache first.
pub serve_http_allowed :
    (env : Env) (turn : Turn) (fresh : Fresh) (r : Request) (w : World) (refreshable : Bool)
    → admitted env.rules r ≡ (true, refreshable)
    → serve_http env turn fresh r w
      ≡ try_cache env
          (key_of env r)
          r
          (log_of env r)
          w
          (after_miss env turn fresh (key_of env r) r (log_of env r))
unfolding serve_http
serve_http_allowed env turn fresh r w refreshable allowed = rw (allowed, serve_http) refl

either_way : {A : Type 0} (b : Bool) {x y : A} → x ≡ y → (if not b then y else x) ≡ y
either_way true e = e
either_way false e = refl

-- The one request that goes to the backend, if its body does not break off.
ask_once-whole : (s : Served) → s.aborted ≡ false → ask_once s ≡ some s
unfolding ask_once
ask_once-whole s whole = rw whole refl

pub serve_http_miss :
    (env : Env) (fresh : Fresh) (r : Request) (w : World) (refreshable : Bool)
    → admitted env.rules r ≡ (true, refreshable)
    → Store.get env.now (key_of env r) w.lsm.mem ≡ some missing
    → (serve_proxied env fresh true (key_of env r) r (log_of env r) w).aborted ≡ false
    → serve_http env leads fresh r w
      ≡ some (serve_proxied env fresh true (key_of env r) r (log_of env r) w)
unfolding after_miss serve_missed ask
serve_http_miss env fresh r w refreshable allowed absent whole =
    serve_http_allowed env leads fresh r w refreshable allowed
    ∙ try_cache_miss env (key_of env r) r (log_of env r) w
        (after_miss env leads fresh (key_of env r) r (log_of env r)) absent
    ∙ either_way env.cfg.backend_once
        (ask_once-whole (serve_proxied env fresh true (key_of env r) r (log_of env r) w) whole)

-- With BackendOnce, a request that waits for another one tries the cache twice.
pub serve_http_follows :
    (env : Env) (fresh : Fresh) (r : Request) (w v : World) (refreshable : Bool)
    → admitted env.rules r ≡ (true, refreshable)
    → env.cfg.backend_once ≡ true
    → Store.get env.now (key_of env r) w.lsm.mem ≡ some missing
    → serve_http env (follows v) fresh r w
      ≡ try_cache env
          (key_of env r)
          r
          (log_of env r)
          v
          (ask env fresh (key_of env r) r (log_of env r))
unfolding after_miss serve_missed
serve_http_follows env fresh r w v refreshable allowed once absent =
    serve_http_allowed env (follows v) fresh r w refreshable allowed
    ∙ try_cache_miss env (key_of env r) r (log_of env r) w
        (after_miss env (follows v) fresh (key_of env r) r (log_of env r)) absent
    ∙ rw once refl

-- The system later on: another clock, backend and limiter.
abbrev pub later :
    Env → ℕ → Bytes → (OutRequest → Option BackendResponse) → Option (ℕ × Bytes) → Env
later env now date round_trip limited = record env {
  now = now;
  date = date;
  round_trip = round_trip;
  limited = limited;
}
