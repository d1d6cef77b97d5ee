-- ===== src/Handler/Serve/Replay.antt =====
-- What the cache answers after the backend did (ServeHTTP of httpsrv/handler/handler.go).
use elinproxy.Prelude.{
  ℕ, ◌<◌, ◌≡◌, sym, ap, ◌∙◌, Bool, true, false, Option, none, some, List, [], length, subst,
}
use elinproxy.Prelude.Int.{ℤ}
use elinproxy.Kvsm.Entry.{Ptr}
use elinproxy.Kvsm.Store
use elinproxy.Kvsm.Reads.{missing}
use elinproxy.Kvsm.Invariant.{IsSound}
use elinproxy.Text.{Bytes, codes}
use elinproxy.HttpLog.{Request}
use elinproxy.CacheRules.Response.{is_resp_cachable}
use elinproxy.Lsm.Log.RoundTrip.{IsHealthy}
use elinproxy.Handler.Headers
use elinproxy.Handler.Cached.{Reply, hide}
use elinproxy.Handler.Proxy.{
  Env, World, Fresh, in_memory, BackendResponse, OutRequest, clean_response, as_response, director,
  Proxied,
}
use elinproxy.Handler.Serve.{Turn, leads, Served, admitted, finish, serve_proxied, serve_http}
use elinproxy.Handler.Proxy.Kept.{reverse_proxy_kept}
use elinproxy.Handler.Serve.Steps.{key_of, log_of, later, serve_http_miss, serve_http_allowed}
use elinproxy.Lsm.Mem.{ItemMem}
use elinproxy.Lsm.Mem.Body.{content}
use elinproxy.Handler.Serve.Stored.{
  in_memory-Holds, IsStored, try_cache-IsStored, keep_item-IsStored,
}

-- A request that leads, and what it leaves.
pub leads-IsStored :
    {queued : ℕ → List Ptr} (env : Env) (e p : Ptr) (r : Request) (w : World) (refreshable : Bool)
    (ttl : ℤ) (resp : BackendResponse)
    → IsHealthy env.os
    → IsSound queued w.lsm.mem
    → (w.lsm.mem.heap e).key ≡ none
    → admitted env.rules r ≡ (true, refreshable)
    → Store.get env.now (key_of env r) w.lsm.mem ≡ some missing
    → env.limited ≡ none
    → env.round_trip (director env true r) ≡ some resp
    → env.cfg.has_cache ≡ true
    → is_resp_cachable env.rules.general (as_response resp) ≡ (ttl, true)
    → resp.breaks ≡ false
    → (s : Served) × (reply : Reply) × (itm : ItemMem) × (serve_http env leads (e, p) r w ≡ some s)
      × (s.aborted ≡ false)
      × (s.reply ≡ some (hide env.cfg.resp_remove_headers reply))
      × (reply.status ≡ resp.status_code)
      × (reply.body ≡ resp.body)
      × (content itm ≡ resp.body)
      × IsStored (key_of env r) p (in_memory itm) resp.status_code s.world
unfolding serve_proxied finish clean_response
leads-IsStored env e p r w refreshable ttl resp healthy sound free allowed absent unlimited answered
      cached cachable readable =
    let k = key_of env r in
    let (itm, reply, proxied, held, code, body) =
      reverse_proxy_kept env healthy (e, p) r ttl resp unlimited answered cached cachable readable k
        w in
    let s = serve_proxied env (e, p) true k r (log_of env r) w in
    let whole : s.aborted ≡ false = ap (λ (x : Proxied). x.aborted) proxied in
    let stored =
      keep_item-IsStored env e p k ttl (clean_response env r.proto_major resp) itm w s.world.lines
        sound free in
    (
      s,
      reply,
      itm,
      serve_http_miss env (e, p) r w refreshable allowed absent whole,
      whole,
      ap (λ (x : Proxied). some (hide env.cfg.resp_remove_headers x.reply)) proxied,
      code,
      body,
      held,
      subst
          (λ (x : Proxied).
            IsStored k p (in_memory itm) resp.status_code
              (record x.world { lines = s.world.lines }))
          (sym proxied) stored,
    )

-- Where there is a cache, and the rules allow the backend's response to be kept, a request that the rules
-- admit, and whose key is not in the store, is answered with the status and the whole body of that
-- response; and the same request is then a hit in the world that the first one leaves, at any time and
-- for any turn, with that status and body, whatever the backend and the limiter say then, also when the
-- item has expired. This is where the limiter lets the first request pass and the body can be read, on a
-- healthy system on which Stat works, with a table that meets its invariant, a free entry from the pool,
-- fuel above the length of the body, and no header Range; the first request is the one that goes to the
-- backend.
pub serve_http-replays :
    {queued : ℕ → List Ptr} (env : Env) (e p : Ptr) (r : Request) (w : World) (refreshable : Bool)
    (ttl : ℤ) (resp : BackendResponse) (now : ℕ) (date : Bytes)
    (round_trip : OutRequest → Option BackendResponse) (limited : Option (ℕ × Bytes)) (turn : Turn)
    (fresh : Fresh)
    → IsHealthy env.os
    → env.os.stats ≡ true
    → length resp.body < env.fuel
    → IsSound queued w.lsm.mem
    → (w.lsm.mem.heap e).key ≡ none
    → admitted env.rules r ≡ (true, refreshable)
    → Headers.get (codes "Range") r.headers ≡ []
    → Store.get env.now (key_of env r) w.lsm.mem ≡ some missing
    → env.limited ≡ none
    → env.round_trip (director env true r) ≡ some resp
    → env.cfg.has_cache ≡ true
    → is_resp_cachable env.rules.general (as_response resp) ≡ (ttl, true)
    → resp.breaks ≡ false
    → (s : Served) × (s' : Served) × (reply : Reply) × (reply' : Reply) × (serve_http env leads
          (e, p)
          r
          w
        ≡ some s)
      × (serve_http (later env now date round_trip limited) turn fresh r s.world ≡ some s')
      × (s.aborted ≡ false)
      × (s.reply ≡ some (hide env.cfg.resp_remove_headers reply))
      × (s'.reply ≡ some (hide env.cfg.resp_remove_headers reply'))
      × (reply.status ≡ resp.status_code)
      × (reply.body ≡ resp.body)
      × (s'.log.hit ≡ true)
      × (reply'.status ≡ resp.status_code)
      × (reply'.body ≡ resp.body)
serve_http-replays env e p r w refreshable ttl resp now date round_trip limited turn fresh healthy
      stats enough sound free allowed plain absent unlimited answered cached cachable readable =
    let (s, reply, itm, led, whole, shown, code, body, held, stored) =
      leads-IsStored env e p r w refreshable ttl resp healthy sound free allowed absent unlimited
        answered cached cachable readable in
    let env' = later env now date round_trip limited in
    let (s', reply', hit, shown', flag, code', body', stored') =
      try_cache-IsStored env' (key_of env r) r (log_of env r) p (in_memory itm) resp.status_code
        itm.header (content itm) s.world
        (in_memory-Holds env' itm healthy stats
          (subst (λ b. length b < env.fuel) (sym held) enough))
        plain stored in
    let tries = serve_http_allowed env' turn fresh r s.world refreshable allowed in
    (
      s,
      s',
      reply,
      reply',
      led,
      tries ∙ hit _,
      whole,
      shown,
      shown',
      code,
      body,
      flag,
      code',
      body' ∙ held,
    )
