-- ===== src/Handler/Serve/Logged.antt =====
-- What the cache answers once the log has written an item (lsm/vlog.go, lsm/lsm.go and
-- httpsrv/handler/handler.go).
use elinproxy.Prelude.{
  ℕ, ◌<◌, ◌≡◌, ◌≢◌, sym, ap, subst, ◌∙◌, Bool, true, false, Option, none, some, List, [], ◌++◌,
  if◌then◌else◌, ◌==◌, ==_self, length, ◌>>=◌, arith,
}
use mathlib.Core.List.{flatten}
use elinproxy.Kvsm.Entry.{Ptr}
use elinproxy.Kvsm.Store
use elinproxy.Kvsm.Store.{Kvsm, Found}
use elinproxy.Kvsm.Invariant.{IsSound}
use elinproxy.Text.{Bytes, codes}
use elinproxy.HttpLog.{Request}
use elinproxy.Lsm.File.{VFile}
use elinproxy.Lsm.Mem.{ItemMem, Header}
use elinproxy.Lsm.Mem.Body.{content}
use elinproxy.Lsm.Disk.{ItemDisk}
use elinproxy.Lsm.Item.{Holds, item_disk-Holds}
use elinproxy.Lsm.Log.{transform, new_line}
use elinproxy.Lsm.Log.RoundTrip.{IsHealthy, transform-write_all}
use elinproxy.Lsm.Store.{Lsm, Object, set_object, after_write}
use elinproxy.Lsm.Store.Replaced.{after_write-found}
use elinproxy.Handler.Headers
use elinproxy.Handler.Cached.{Reply, hide}
use elinproxy.Handler.Proxy.{Env, World, Fresh, AnyItem, in_memory, on_disk, as_item}
use elinproxy.Handler.Serve.{Turn, Served, admitted, serve_http}
use elinproxy.Handler.Serve.Steps.{key_of, log_of, serve_http_allowed}
use elinproxy.Handler.Serve.Stored.{IsStored, try_cache-IsStored}

-- The item on disk, as the store counts its uses.
abbrev pub disk_object : ItemDisk → Object
disk_object itd = record {
  key = itd.key;
  status_code = itd.status_code;
  hit = itd.hit;
  in_use = 0;
  pooled = false;
}

-- afterWrite with the item on disk that was written, which is then at `q`; `more` is what its file has
-- behind it later on. `none` is a panic of the table.
unfoldable pub hand_over : Env → Fresh → ℕ → Bytes → World → VFile × Option ItemDisk → Option World
hand_over env fresh ttl more w (file, none) = some w
hand_over env (e, q) ttl more w (file, some itd) = do
  c ← after_write e q ttl env.now (set_object q (disk_object itd) w.lsm)
  some (record w {
    lsm = c;
    items = λ x. if x == q then on_disk (file.content ++ more) itd else w.items x;
  })

-- A try of the log's reader with an item in memory and the file that is open: transform, and where it
-- does not fail afterWrite.
unfoldable pub log_item :
    Env → (Header → List Bytes) → Fresh → ℕ → VFile → Bytes → ItemMem → World → Option World
unfolding hand_over
log_item env serialize fresh ttl file more itm w =
    hand_over env fresh ttl more w (transform env.os serialize env.now file itm)

-- Once the log has written an item in memory, the item on disk is stored under its key, and keeps the
-- promise for the same header and body.
log_item-IsStored :
    {queued : ℕ → List Ptr} (env : Env) (serialize : Header → List Bytes) (e p q : Ptr) (ttl : ℕ)
    (file : VFile) (more : Bytes) (itm : ItemMem) (key code : ℕ) (w : World)
    → IsHealthy env.os
    → IsSound queued w.lsm.mem
    → w.lsm.mem.evicted ≡ []
    → q ≢ p
    → IsStored key p (in_memory itm) code w
    → itm.key ≡ key
    → itm.status_code ≡ code
    → env.parse (flatten (serialize itm.header) ++ new_line) ≡ some itm.header
    → file.size ≡ length file.content
    → length (content itm) < env.fuel
    → (w' : World) × (any : AnyItem) × (log_item env serialize (e, q) ttl file more itm w ≡ some w')
      × IsStored key q any code w'
      × Holds (as_item env any) itm.header (content itm)
unfolding log_item as_item
log_item-IsStored env serialize e p q ttl file more itm key code w healthy sound calm apart stored
      keyed coded agree all_written enough =
    let (file', itd, logged) =
      transform-write_all env.os healthy env.now env.fuel serialize env.parse file itm agree
        all_written enough more in
    let o = disk_object itd in
    let c = set_object q o w.lsm in
    let own : c.objects q ≡ o = ap (λ b. if b then o else w.lsm.objects q) (==_self q) in
    let named : (c.objects q).key ≡ key = ap (λ (y : Object). y.key) own ∙ logged.key ∙ keyed in
    let (x, here) = stored.found env.now in
    let (c', written, found, kept) =
      after_write-found c sound e p q ttl env.now calm apart x
        (ap (λ k. Store.get env.now k w.lsm.mem) named ∙ here) in
    let bytes = file'.content ++ more in
    let any = on_disk bytes itd in
    (
      record w { lsm = c'; items = λ y. if y == q then any else w.items y },
      any,
      ap (hand_over env (e, q) ttl more w) logged.returns
          ∙ ap
              (λ (d : Option Lsm). d >>= λ l.
                some (record w { lsm = l; items = λ y. if y == q then any else w.items y }))
              written,
      record {
        found =
            λ now. ((found now).0, ap (λ k. Store.get now k c'.mem) (sym named) ∙ (found now).1);
        status = ap (λ (y : Object). y.status_code) (kept ∙ own) ∙ logged.status_code ∙ coded;
        at = ap (λ b. if b then any else w.items q) (==_self q);
      },
      subst (Holds (as_item env any) itm.header) logged.place (
          item_disk-Holds env.os env.parse bytes itd itm.header env.fuel healthy.reads logged.header
            (omega (arith, logged.body_size)) logged.fits),
    )

-- Once the log has written an item that is in memory under the key of a request, which the rules admit
-- and which names no range, the request is a hit, for any turn, with the status and the body of the
-- item, out of the file, also after more was written behind it. This is on a healthy system, with a
-- table that meets its invariant and has nothing left to be evicted, another item from the pool, an
-- item that has its key and status, a parser that reads what the serializer wrote for its header, a
-- file whose size counts all that it holds, and fuel above the length of the body.
pub serve_http-logged :
    {queued : ℕ → List Ptr} (env : Env) (serialize : Header → List Bytes) (e p q : Ptr) (ttl : ℕ)
    (file : VFile) (more : Bytes) (itm : ItemMem) (code : ℕ) (w : World) (r : Request)
    (refreshable : Bool) (turn : Turn) (fresh : Fresh)
    → IsHealthy env.os
    → IsSound queued w.lsm.mem
    → w.lsm.mem.evicted ≡ []
    → q ≢ p
    → IsStored (key_of env r) p (in_memory itm) code w
    → itm.key ≡ key_of env r
    → itm.status_code ≡ code
    → env.parse (flatten (serialize itm.header) ++ new_line) ≡ some itm.header
    → file.size ≡ length file.content
    → length (content itm) < env.fuel
    → admitted env.rules r ≡ (true, refreshable)
    → Headers.get (codes "Range") r.headers ≡ []
    → (w' : World) × (s : Served) × (reply : Reply) × (log_item env serialize
          (e, q)
          ttl
          file
          more
          itm
          w
        ≡ some w')
      × (serve_http env turn fresh r w' ≡ some s)
      × (s.reply ≡ some (hide env.cfg.resp_remove_headers reply))
      × (s.log.hit ≡ true)
      × (reply.status ≡ code)
      × (reply.body ≡ content itm)
serve_http-logged env serialize e p q ttl file more itm code w r refreshable turn fresh healthy
      sound calm apart stored keyed coded agree all_written enough allowed plain =
    let (w', any, logged, stored', holds) =
      log_item-IsStored env serialize e p q ttl file more itm (key_of env r) code w healthy sound
        calm apart stored keyed coded agree all_written enough in
    let (s, reply, hit, shown, flag, status, body, after) =
      try_cache-IsStored env (key_of env r) r (log_of env r) q any code itm.header (content itm) w'
        holds plain stored' in
    let tries = serve_http_allowed env turn fresh r w' refreshable allowed in
    (w', s, reply, logged, tries ∙ hit _, shown, flag, status, body)
