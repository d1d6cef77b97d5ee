-- ===== src/Handler/Serve/Stored.antt =====
-- Hits of ServeHTTP (httpsrv/handler/handler.go) on an item that stays in the store.
use elinproxy.Prelude.{
  ℕ, ◌<◌, ◌≡◌, refl, ap, ◌∙◌, Bool, true, Option, none, some, List, [], if◌then◌else◌, ==_self,
  length, arith, Bool-cases, inl, inr, ◌+◌, ◌-◌, ltb,
}
use elinproxy.Prelude.Int.{ℤ, pos_part, neg_part}
use elinproxy.Kvsm.Entry.{Ptr}
use elinproxy.Kvsm.Store
use elinproxy.Kvsm.Reads.{get-set}
use elinproxy.Kvsm.Invariant.{IsSound}
use elinproxy.Text.{Bytes, codes}
use elinproxy.HttpLog.{Request, HttpLog, Lines, write as log_write, write_header}
use elinproxy.Lsm.Mem.{ItemMem, Header}
use elinproxy.Lsm.Mem.Body.{content}
use elinproxy.Lsm.Item.{Holds, item_mem-Holds}
use elinproxy.Lsm.Log.RoundTrip.{IsHealthy}
use elinproxy.Lsm.Store.{Lsm, set_object, hand_out, get, set, done, found_item}
use elinproxy.Handler.Headers
use elinproxy.Handler.Cached.{Reply, hide, respond}
use elinproxy.Handler.Cached.Answers.{respond-IsWhole}
use elinproxy.Handler.Proxy.{
  Env, World, BackendResponse, AnyItem, in_memory, as_item, new_object, keep_item,
}
use elinproxy.Handler.Serve.{Served, finish, try_cache}
use elinproxy.Handler.Serve.Steps.{try_cache_hit}

-- The key has that item, with the status of its response, at any time.
pub record IsStored (key : ℕ) (p : Ptr) (any : AnyItem) (code : ℕ) (w : World) : Type 0 where
  pub found :
      (now : ℕ)
      → (expired : Bool) × (Store.get now key w.lsm.mem
          ≡ some (record { value = some p; is_expired = expired; ok = true }))
  pub status : (w.lsm.objects p).status_code ≡ code
  pub at : w.items p ≡ any

-- What Get of the store makes of what the table has.
get_stored :
    (now key : ℕ) (c : Lsm) (p : Ptr) (expired : Bool)
    → Store.get now key c.mem ≡ some (record { value = some p; is_expired = expired; ok = true })
    → get now key c ≡ some (set_object p (hand_out (c.objects p)) c, some (p, expired))
unfolding get found_item
get_stored now key c p expired e = rw (e, get) refl

-- A use and its end keep the status.
used_status :
    (p : Ptr) (c : Lsm)
    → ((done p (set_object p (hand_out (c.objects p)) c)).objects p).status_code
      ≡ (c.objects p).status_code
unfolding done hand_out
used_status p c = ground arith

-- A request for the whole of such an item, which keeps its promise, is a hit, after which the item is
-- stored as before.
pub try_cache-IsStored :
    (env : Env) (key : ℕ) (r : Request) (hl : HttpLog) (p : Ptr) (any : AnyItem) (code : ℕ)
    (header : Header) (body : Bytes) (w : World)
    → Holds (as_item env any) header body
    → Headers.get (codes "Range") r.headers ≡ []
    → IsStored key p any code w
    → (s : Served) × (reply : Reply) × ((otherwise : World → Option Served)
        → try_cache env key r hl w otherwise ≡ some s)
      × (s.reply ≡ some (hide env.cfg.resp_remove_headers reply))
      × (s.log.hit ≡ true)
      × (reply.status ≡ code)
      × (reply.body ≡ body)
      × IsStored key p any code s.world
unfolding finish hand_out log_write write_header done
try_cache-IsStored env key r hl p any code header body w holds plain stored =
    let (expired, here) = stored.found env.now in
    let o = w.lsm.objects p in
    let c = set_object p (hand_out o) w.lsm in
    let object_p : c.objects p ≡ hand_out o =
      ap (λ b. if b then hand_out o else w.lsm.objects p) (==_self p) in
    let (reply, answer, all) =
      respond-IsWhole (as_item env any) header body (hand_out o) expired holds in
    let asked : respond (as_item env (w.items p)) (c.objects p) expired
          (Headers.get (codes "Range") r.headers)
        ≡ some (some reply) =
      (λ i. respond (as_item env (stored.at i)) (object_p i) expired (plain i)) ∙ answer in
    let after = finish env reply (record hl { hit = true }) (record w { lsm = done p c }) in
    (
      after,
      reply,
      λ otherwise.
          try_cache_hit env key r hl w otherwise c p expired reply
            (get_stored env.now key w.lsm p expired here) asked,
      refl,
      refl,
      all.status ∙ stored.status,
      all.bytes,
      record { found = stored.found; status = used_status p w.lsm ∙ stored.status; at = stored.at },
    )

-- What Set leaves, whether the log is given the item or not.
set_fields :
    (e p : Ptr) (ttl at : ℕ) (c : Lsm)
    → ((set e p ttl at c).mem ≡ Store.set e (c.objects p).key (some p) ttl at c.mem)
      × ((set e p ttl at c).objects ≡ c.objects)
unfolding set
set_fields e p ttl at c = elim (Bool-cases (ltb c.min_lsm_ttl ttl)) [
  | inl t ↦ rw (t, set) (refl, refl)
  | inr f ↦ rw (f, set) (refl, refl)
]

-- An item that was just kept is stored.
pub keep_item-IsStored :
    {queued : ℕ → List Ptr} (env : Env) (e p : Ptr) (key : ℕ) (ttl : ℤ) (resp : BackendResponse)
    (itm : ItemMem) (w : World) (lines : Lines)
    → IsSound queued w.lsm.mem
    → (w.lsm.mem.heap e).key ≡ none
    → IsStored key p
        (in_memory itm)
        resp.status_code
        (record (keep_item env (e, p) key ttl resp itm w) { lines = lines })
unfolding keep_item new_object
keep_item-IsStored env e p key ttl resp itm w lines sound free =
    let o = new_object key resp in
    let c = set_object p o w.lsm in
    let ns = pos_part ttl in
    let at = env.now - neg_part ttl in
    let (mem, objects) = set_fields e p ns at c in
    let own : c.objects p ≡ o = ap (λ b. if b then o else w.lsm.objects p) (==_self p) in
    record {
      found = λ now. (
        ltb (at + ns) now,
        (λ i. Store.get now key (mem i))
            ∙ (λ i. Store.get now key (Store.set e (own i).key (some p) ns at w.lsm.mem))
            ∙ get-set sound e key (some p) ns at now key free
            ∙ rw (==_self key) refl,
      );
      status = (λ i. (objects i p).status_code) ∙ ap (λ x. x.status_code) own;
      at = ap (λ b. if b then in_memory itm else w.items p) (==_self p);
    }

-- An item in memory keeps its promise, on a healthy system.
pub in_memory-Holds :
    (env : Env) (itm : ItemMem)
    → IsHealthy env.os
    → env.os.stats ≡ true
    → length (content itm) < env.fuel
    → Holds (as_item env (in_memory itm)) itm.header (content itm)
unfolding as_item
in_memory-Holds env itm healthy stats enough =
    item_mem-Holds env.os healthy stats env.fuel itm enough
