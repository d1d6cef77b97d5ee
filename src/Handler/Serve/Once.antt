-- ===== src/Handler/Serve/Once.antt =====
-- BackendOnce of httpsrv/handler/handler.go: many requests under one key, of which one goes to the
-- backend while the others wait for it.
use elinproxy.Prelude.{
  ℕ, ◌<◌, ◌≡◌, sym, refl, ◌∙◌, Bool, true, false, Option, none, some, List, [], ◌∷◌, length, subst,
  ◌>>=◌,
}
use elinproxy.Prelude.Int.{ℤ}
use elinproxy.Kvsm.Entry.{Ptr}
use elinproxy.Kvsm.Store
use elinproxy.Kvsm.Reads.{missing}
use elinproxy.Kvsm.Invariant.{IsSound}
use elinproxy.Text.{Bytes, codes}
use elinproxy.HttpLog.{Request}
use elinproxy.CacheRules.Response.{is_resp_cachable}
use elinproxy.Lsm.Mem.{ItemMem}
use elinproxy.Lsm.Mem.Body.{content}
use elinproxy.Lsm.Log.RoundTrip.{IsHealthy}
use elinproxy.Handler.Headers
use elinproxy.Handler.Cached.{Reply, hide}
use elinproxy.Handler.Proxy.{
  Env, World, Fresh, in_memory, BackendResponse, OutRequest, as_response, director,
}
use elinproxy.Handler.Serve.{leads, follows, Served, admitted, serve_http}
use elinproxy.Handler.Serve.Steps.{key_of, log_of, later, serve_http_follows}
use elinproxy.Handler.Serve.Stored.{in_memory-Holds, IsStored, try_cache-IsStored}
use elinproxy.Handler.Serve.Replay.{leads-IsStored}

-- A request that waits: when it goes on and what it would meet at the backend and at the limiter, what
-- its pools would hand out, and the world in which it missed the cache.
pub record Waiter : Type 0 where
  pub request : Request
  pub now : ℕ
  pub date : Bytes
  pub round_trip : OutRequest → Option BackendResponse
  pub limited : Option (ℕ × Bytes)
  pub fresh : Fresh
  pub missed_in : World

abbrev pub env_of : Env → Waiter → Env
env_of env v = later env v.now v.date v.round_trip v.limited

-- The waiters, one after the other, each in the world that the one before it leaves.
unfoldable pub serve_waiters : Env → List Waiter → World → Option (List Served)
serve_waiters env [] w = some []
serve_waiters env (v ∷ vs) w = do
  s ← serve_http (env_of env v) (follows w) v.fresh v.request v.missed_in
  ss ← serve_waiters env vs s.world
  some (s ∷ ss)

-- A waiter that the rules admit, for the whole of the page of that key, which was not in the store.
pub record WaitsFor (env : Env) (key : ℕ) (v : Waiter) : Type 0 where
  pub same_key : key_of env v.request ≡ key
  pub allowed : (refreshable : Bool) × (admitted env.rules v.request ≡ (true, refreshable))
  pub plain : Headers.get (codes "Range") v.request.headers ≡ []
  pub absent : Store.get v.now key v.missed_in.lsm.mem ≡ some missing

abbrev pub AllWait : Env → ℕ → List Waiter → Type 0
AllWait env key [] = Unit {0}
AllWait env key (v ∷ vs) = WaitsFor env key v × AllWait env key vs

-- A hit with that status and body, but for the headers that are configured away.
abbrev pub IsHit : Env → ℕ → Bytes → Served → Type 0
IsHit env code body s =
    (s.log.hit ≡ true)
    × (reply : Reply) × (s.reply ≡ some (hide env.cfg.resp_remove_headers reply))
    × (reply.status ≡ code)
    × (reply.body ≡ body)

-- As many hits as there are waiters.
abbrev pub AllHit : Env → ℕ → Bytes → List Waiter → List Served → Type 0
AllHit env code body [] [] = Unit {0}
AllHit env code body [] (s ∷ ss) = ⊥
AllHit env code body (v ∷ vs) [] = ⊥
AllHit env code body (v ∷ vs) (s ∷ ss) = IsHit env code body s × AllHit env code body vs ss

module _ (env : Env) (key : ℕ) (p : Ptr) (itm : ItemMem) (code : ℕ) (healthy : IsHealthy env.os)
    (stats : env.os.stats ≡ true) (enough : length (content itm) < env.fuel)
    (once : env.cfg.backend_once ≡ true) where
  waiter-IsHit :
      (v : Waiter) (w : World)
      → WaitsFor env key v
      → IsStored key p (in_memory itm) code w
      → (s : Served) × (serve_http (env_of env v) (follows w) v.fresh v.request v.missed_in
          ≡ some s)
        × IsHit env code (content itm) s
        × IsStored key p (in_memory itm) code s.world
  waiter-IsHit v w waits stored =
      let (refreshable, allowed) = waits.allowed in
      let env' = env_of env v in
      let stored' = subst (λ k. IsStored k p (in_memory itm) code w) (sym waits.same_key) stored in
      let absent =
        subst (λ k. Store.get v.now k v.missed_in.lsm.mem ≡ some missing) (sym waits.same_key)
          waits.absent in
      let (s, reply, hit, shown, flag, status, body, after) =
        try_cache-IsStored env' (key_of env v.request) v.request (log_of env v.request) p
          (in_memory itm) code itm.header (content itm) w
          (in_memory-Holds env' itm healthy stats enough) waits.plain stored' in
      (
        s,
        serve_http_follows env' v.fresh v.request v.missed_in w refreshable allowed once absent
            ∙ hit _,
        (flag, reply, shown, status, body),
        subst (λ k. IsStored k p (in_memory itm) code s.world) waits.same_key after,
      )

  serve_waiters-AllHit :
      (vs : List Waiter) (w : World)
      → AllWait env key vs
      → IsStored key p (in_memory itm) code w
      → (ss : List Served) × (serve_waiters env vs w ≡ some ss)
        × AllHit env code (content itm) vs ss
  unfolding serve_waiters
  serve_waiters-AllHit [] w wait stored = ([], refl, tt)
  serve_waiters-AllHit (v ∷ vs) w (waits, wait) stored =
      let (s, served, hit, stored') = waiter-IsHit v w waits stored in
      let (ss, rest, hits) = serve_waiters-AllHit vs s.world wait stored' in
      (s ∷ ss, rw (served, serve_waiters) (rw (rest, serve_waiters) refl), (hit, hits))

-- With BackendOnce, any number of requests that wait for one that goes to the backend, and whose key
-- was not in the store, are hits when they go on one after the other in the world that it leaves: each
-- is answered with the status and the body of the one response, and the backend is not asked again,
-- whatever it and the limiter would say. The first request is one that the rules admit, is not limited,
-- and meets a response whose body can be read and that may be kept; the waiters are admitted and name
-- no range. This is on a healthy system on which Stat works, with a table that meets its invariant, a
-- free entry from the pool and fuel above the length of the body.
pub serve_waiters-replays :
    {queued : ℕ → List Ptr} (env : Env) (e p : Ptr) (r : Request) (w : World) (refreshable : Bool)
    (ttl : ℤ) (resp : BackendResponse) (vs : List Waiter)
    → IsHealthy env.os
    → env.os.stats ≡ true
    → length resp.body < env.fuel
    → IsSound queued w.lsm.mem
    → (w.lsm.mem.heap e).key ≡ none
    → admitted env.rules r ≡ (true, refreshable)
    → Store.get env.now (key_of env r) w.lsm.mem ≡ some missing
    → env.limited ≡ none
    → env.round_trip (director env true r) ≡ some resp
    → env.cfg.has_cache ≡ true
    → is_resp_cachable env.rules.general (as_response resp) ≡ (ttl, true)
    → resp.breaks ≡ false
    → env.cfg.backend_once ≡ true
    → AllWait env (key_of env r) vs
    → (s : Served) × (ss : List Served) × (serve_http env leads (e, p) r w ≡ some s)
      × (serve_waiters env vs s.world ≡ some ss)
      × AllHit env resp.status_code resp.body vs ss
serve_waiters-replays env e p r w refreshable ttl resp vs healthy stats enough sound free allowed
      absent unlimited answered cached cachable readable once wait =
    let (s, reply, itm, led, whole, shown, code, body, held, stored) =
      leads-IsStored env e p r w refreshable ttl resp healthy sound free allowed absent unlimited
        answered cached cachable readable in
    let (ss, served, hits) =
      serve_waiters-AllHit env (key_of env r) p itm resp.status_code healthy stats
        (subst (λ b. length b < env.fuel) (sym held) enough) once vs s.world wait stored in
    (s, ss, led, served, subst (λ b. AllHit env resp.status_code b vs ss) held hits)
