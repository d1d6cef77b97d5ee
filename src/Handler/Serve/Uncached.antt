-- ===== src/Handler/Serve/Uncached.antt =====
-- Requests that the rules keep from the cache (ServeHTTP of httpsrv/handler/handler.go).
use elinproxy.Prelude.{
  ℕ, ◌≡◌, refl, ap, Bool, false, ◌||◌, not, Option, none, some, List, [], ◌∷◌, if◌then◌else◌, ◌==◌,
  inl, inr, Option-cases,
}
use mathlib.Core.Bool.{or-true}
use elinproxy.Kvsm.Store
use elinproxy.Text.{Bytes}
use elinproxy.HttpLog.{Request, HttpLog, new, get_key_str, get_key_str_device, write, write_header}
use elinproxy.Lsm.Store.{Lsm}
use elinproxy.Handler.Cached.{hide}
use elinproxy.Handler.Proxy.{
  Env, World, Fresh, BackendResponse, reverse_proxy, ask_backend, on_response, delivered, director,
}
use elinproxy.Handler.Serve.{
  Turn, Served, admitted, refresh, ua_device_cleaner, finish, serve_proxied, serve_http,
}

-- The store after the refresh, for a request that asks for one.
abbrev pub refreshed : Env → Request → Bool → World → Lsm
refreshed env r refreshable w =
    if refreshable
    then refresh env.hash (new env.split_host_port env.device_of r) ua_device_cleaner w.lsm
    else w.lsm

on_response_same :
    (env : Env) (fresh : Fresh) (n key : ℕ) (resp : BackendResponse) (w : World)
    → on_response env fresh false n key resp w ≡ (w, some resp)
unfolding on_response
on_response_same env fresh n key resp w = rw (or-true (not env.cfg.has_cache)) refl

-- Whether the body of the backend's answer breaks off.
abbrev pub body_breaks : Option BackendResponse → Bool
body_breaks none = false
body_breaks (some resp) = resp.breaks

-- Whether a request that is passed on, and not refused by the limiter, meets such a body.
abbrev pub breaks_off : Env → Request → Bool
breaks_off env r = elim env.limited [
  | some refusal ↦ false
  | none ↦ body_breaks (env.round_trip (director env false r))
]

-- The backend's answer to a request that is not cachable leaves the world alone, and does not depend
-- on it.
ask_backend_same :
    (env : Env) (fresh : Fresh) (key : ℕ) (r : Request) (w w₂ : World)
    → ((ask_backend env fresh false key r w).0 ≡ w)
      × ((ask_backend env fresh false key r w).1 ≡ (ask_backend env fresh false key r w₂).1)
      × ((ask_backend env fresh false key r w).2
          ≡ body_breaks (env.round_trip (director env false r)))
unfolding ask_backend delivered
ask_backend_same env fresh key r w w₂ =
    elim (Option-cases (env.round_trip (director env false r))) [
      | inl e ↦ rw (e, ask_backend) (refl, refl, refl)
      | inr (resp, e) ↦
          rw (e, ask_backend)
            (rw
              (
                on_response_same env fresh r.proto_major key resp w,
                on_response_same env fresh r.proto_major key resp w₂,
              )
              (refl, refl, refl))
    ]

reverse_proxy_same :
    (env : Env) (fresh : Fresh) (key : ℕ) (r : Request) (w w₂ : World)
    → let p = reverse_proxy env fresh false key r w in
      (p.world ≡ w)
      × (p.reply ≡ (reverse_proxy env fresh false key r w₂).reply)
      × (p.aborted ≡ breaks_off env r)
unfolding reverse_proxy director
reverse_proxy_same env fresh key r w w₂ = elim (Option-cases env.limited) [
  | inl e ↦ rw (e, reverse_proxy) (ask_backend_same env fresh key r w w₂)
  | inr ((code, message), e) ↦ rw (e, reverse_proxy) (refl, refl, refl)
]

-- A request that the rules keep from the cache does not end the program, and its handler is aborted
-- exactly where the limiter lets it pass and the body of the backend's answer breaks off. It is no hit.
-- What it is sent does not depend on the store, the items or the log, whatever these are. It changes no
-- item, and the store by the refresh only, if the rules ask for that.
pub serve_http-uncached :
    (env : Env) (turn : Turn) (fresh : Fresh) (r : Request) (refreshable : Bool) (w w₂ : World)
    → admitted env.rules r ≡ (false, refreshable)
    → (s : Served) × (s₂ : Served) × (serve_http env turn fresh r w ≡ some s)
      × (serve_http env turn fresh r w₂ ≡ some s₂)
      × (s.aborted ≡ breaks_off env r)
      × (s.reply ≡ s₂.reply)
      × (s.log.hit ≡ false)
      × (s.world.items ≡ w.items)
      × (s.world.lsm ≡ refreshed env r refreshable w)
unfolding serve_http serve_proxied finish new write write_header
serve_http-uncached env turn fresh r refreshable w w₂ refused =
    let hl = new env.split_host_port env.device_of r in
    let key = env.hash (get_key_str hl) in
    let v = record w { lsm = refreshed env r refreshable w } in
    let v₂ = record w₂ { lsm = refreshed env r refreshable w₂ } in
    let (same, reply, broken) = reverse_proxy_same env fresh key r v v₂ in
    (
      serve_proxied env fresh false key r hl v,
      serve_proxied env fresh false key r hl v₂,
      rw (refused, serve_http) refl,
      rw (refused, serve_http) refl,
      broken,
      ap (λ x. some (hide env.cfg.resp_remove_headers x)) reply,
      refl,
      ap (λ x. x.items) same,
      ap (λ x. x.lsm) same,
    )

-- Whether a key is that of the request on one of the devices.
abbrev pub hits_key : (Bytes → ℕ) → HttpLog → ℕ → List ℕ → Bool
hits_key hash hl j [] = false
hits_key hash hl j (i ∷ is) = (hash (get_key_str_device hl i) == j) || hits_key hash hl j is
