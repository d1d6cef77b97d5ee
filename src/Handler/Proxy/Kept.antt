-- ===== src/Handler/Proxy/Kept.antt =====
-- The backend's answer to a cachable request, and the item that is kept of it (reverseProxy and
-- modifyResponse of httpsrv/handler/handler.go, DumpResponse of httpsrv/handler/utils.go).
use elinproxy.Prelude.{
  ℕ, ◌≡◌, refl, sym, ap, ◌∙◌, Bool, true, false, none, some, List, [], ◌∷◌, ◌++◌, if◌then◌else◌,
  length,
}
use mathlib.Core.List.{flatten, append_assoc, append-nil}
use elinproxy.Prelude.Int.{ℤ, pos}
use elinproxy.Text.{Bytes}
use elinproxy.HttpLog.{Request}
use elinproxy.CacheRules.Response.{is_resp_cachable}
use elinproxy.Lsm.File.{Os}
use elinproxy.Lsm.Mem.{ItemMem, write}
use elinproxy.Lsm.Mem.Body.{content, content-write}
use elinproxy.Lsm.Log.RoundTrip.{IsHealthy}
use elinproxy.Handler.Cached.{Reply}
use elinproxy.Handler.Proxy.{
  Env, World, Fresh, BackendResponse, clean_response, drain_body, copy_body, dump_response,
  new_item, keep_item, modify_response, as_response, on_response, delivered, ask_backend,
  reverse_proxy, director, bad_gateway,
}

module _ (os : Os) (sound : (c b : Bytes) → os.write_fault c b ≡ none) where
  -- A body that is copied to an item stands in it whole, behind what was there.
  copy_body_lem :
      (bs : List Bytes) (itm : ItemMem)
      → (itm' : ItemMem) × (copy_body os bs itm ≡ (itm', false))
        × (content itm' ≡ content itm ++ flatten bs)
  unfolding copy_body flatten
  copy_body_lem [] itm = (itm, refl, sym (append-nil (content itm)))
  copy_body_lem (b ∷ bs) itm =
      let (held, count) = content-write os sound b itm in
      let (itm', copied, all) = copy_body_lem bs (write os b itm).0 in
      (
        itm',
        ap (λ f. if f then ((write os b itm).0, true) else copy_body os bs (write os b itm).0)
              (ap (λ x. x.1) count)
            ∙ copied,
        all ∙ ap (λ c. c ++ flatten bs) held ∙ append_assoc (content itm) b (flatten bs),
      )

-- A response whose body can be read is kept as an item with that body, and passed on.
module _ (env : Env) (healthy : IsHealthy env.os) (fresh : Fresh) (key : ℕ) (ttl : ℤ)
    (resp : BackendResponse) (readable : resp.breaks ≡ false) where
  modify_response_lem :
      (n : ℕ) (w : World)
      → (itm : ItemMem) × (resp' : BackendResponse) × (modify_response env fresh n key ttl resp w
          ≡ (keep_item env fresh key ttl (clean_response env n resp) itm w, some resp'))
        × (content itm ≡ resp.body)
        × (resp'.status_code ≡ resp.status_code)
        × (resp'.body ≡ resp.body)
        × (resp'.breaks ≡ false)
  unfolding modify_response dump_response drain_body clean_response new_item keep_item
  modify_response_lem n w =
      let cleaned = clean_response env n resp in
      let (itm, copied, held) =
        copy_body_lem env.os healthy.writes (env.os.chunks resp.body) (new_item key cleaned) in
      (
        itm,
        record cleaned { body = resp.body; content_length = pos (length resp.body) },
        rw (readable, modify_response) (rw (copied, modify_response) refl),
        held ∙ healthy.copies resp.body,
        refl,
        refl,
        readable,
      )

ask_backend_step :
    (env : Env) (fresh : Fresh) (key : ℕ) (r : Request) (w w' : World)
    (resp resp' : BackendResponse)
    → env.round_trip (director env true r) ≡ some resp
    → on_response env fresh true r.proto_major key resp w ≡ (w', some resp')
    → resp'.breaks ≡ false
    → ask_backend env fresh true key r w ≡ (
      w',
      record { status = resp'.status_code; headers = resp'.header; body = resp'.body },
      false,
    )
unfolding ask_backend delivered
ask_backend_step env fresh key r w w' resp resp' answered kept whole =
    rw (answered, ask_backend) (rw kept (rw whole refl))

reverse_proxy_step :
    (env : Env) (fresh : Fresh) (key : ℕ) (r : Request) (w w' : World) (reply : Reply)
    → env.limited ≡ none
    → ask_backend env fresh true key r w ≡ (w', reply, false)
    → reverse_proxy env fresh true key r w
      ≡ record { world = w'; reply = reply; refused = false; aborted = false }
unfolding reverse_proxy
reverse_proxy_step env fresh key r w w' reply unlimited asked =
    ap
      (λ o. elim o [
        | some (code, message) ↦ record {
          world = w;
          reply = bad_gateway code message;
          refused = true;
          aborted = false;
        }
        | none ↦ record {
          world = (ask_backend env fresh true key r w).0;
          reply = (ask_backend env fresh true key r w).1;
          refused = false;
          aborted = (ask_backend env fresh true key r w).2;
        }
      ])
      unlimited
    ∙ ap
        (λ (x : World × Reply × Bool). record {
          world = x.0;
          reply = x.1;
          refused = false;
          aborted = x.2;
        })
        asked

-- The backend's answer to a cachable request, which may be kept.
module _ (env : Env) (healthy : IsHealthy env.os) (fresh : Fresh) (r : Request) (ttl : ℤ)
    (resp : BackendResponse) (unlimited : env.limited ≡ none)
    (answered : env.round_trip (director env true r) ≡ some resp)
    (cached : env.cfg.has_cache ≡ true)
    (cachable : is_resp_cachable env.rules.general (as_response resp) ≡ (ttl, true))
    (readable : resp.breaks ≡ false) where
  on_response_kept :
      (key : ℕ) (w : World)
      → on_response env fresh true r.proto_major key resp w
        ≡ modify_response env fresh r.proto_major key ttl resp w
  unfolding on_response
  on_response_kept key w = rw (cached, on_response) (rw (cachable, on_response) refl)

  abbrev kept_world : ℕ → ItemMem → World → World
  kept_world key itm w = keep_item env fresh key ttl (clean_response env r.proto_major resp) itm w

  pub reverse_proxy_kept :
      (key : ℕ) (w : World)
      → (itm : ItemMem) × (reply : Reply) × (reverse_proxy env fresh true key r w ≡ record {
        world = kept_world key itm w;
        reply = reply;
        refused = false;
        aborted = false;
      })
        × (content itm ≡ resp.body)
        × (reply.status ≡ resp.status_code)
        × (reply.body ≡ resp.body)
  reverse_proxy_kept key w =
      let (itm, resp', kept, held, code, body, whole) =
        modify_response_lem env healthy fresh key ttl resp readable r.proto_major w in
      (
        itm,
        record { status = resp'.status_code; headers = resp'.header; body = resp'.body },
        reverse_proxy_step env fresh key r w (kept_world key itm w) _ unlimited (
            ask_backend_step env fresh key r w (kept_world key itm w) resp resp' answered
              (on_response_kept key w ∙ kept) whole),
        held,
        code,
        body,
      )
