-- ===== src/Handler/Serve/Tests.antt =====
-- A store with nothing in it, a backend with one page, and requests for that page.
use elinproxy.Prelude.{
  ℕ, ◌≡◌, refl, true, false, none, some, List, [], ◌∷◌, length, arith, ltb, ◌≢◌, ◌∙◌, ==_self,
}
use elinproxy.Prelude.Assoc.{lookup}
use elinproxy.Prelude.Int.{pos}
use elinproxy.Text.{Bytes, codes}
use elinproxy.HttpLog.{Request, new}
use elinproxy.Kvsm.Entry.{Ptr, Entry}
use elinproxy.Kvsm.Store
use elinproxy.Kvsm.Reads.{missing, get-set}
use elinproxy.Kvsm.Invariant.{set-IsSound}
use elinproxy.Kvsm.Reachable.{new-IsSound}
use elinproxy.CacheRules.{InternalRules, default_ttl}
use elinproxy.CacheRules.Request.{is_req_cachable}
use elinproxy.CacheRules.Request
use elinproxy.CacheRules.Response.{is_resp_cachable}
use elinproxy.Lsm.File.{sound_os, VFile}
use elinproxy.Lsm.Mem.{ItemMem}
use elinproxy.Lsm.Log.RoundTrip.{sound_os-IsHealthy}
use elinproxy.Handler.Headers.{get}
use elinproxy.Handler.Cached.{Reply, hide}
use elinproxy.Handler.Proxy.{Config, Env, World, BackendResponse, in_memory, as_response}
use elinproxy.Handler.Serve.{leads, gives_up, Served, admitted, domain_rules, serve_http}
use elinproxy.Handler.Serve.Uncached.{serve_http-uncached, refreshed}
use elinproxy.Handler.Serve.Once.{Waiter, serve_waiters, WaitsFor, AllHit, serve_waiters-replays}
use elinproxy.Handler.Serve.Replay.{serve_http-replays}
use elinproxy.Handler.Serve.Stored.{IsStored}
use elinproxy.Handler.Serve.Logged.{log_item, serve_http-logged}
use elinproxy.Handler.Serve.Steps.{later, key_of}

-- No rules but one on cookies.
abbrev few_rules : InternalRules
few_rules = record {
  no_req_ext = [];
  no_req_path_prefix = [];
  no_req_path_suffix = [];
  no_req_path_contains = [];
  no_req_cookie_contains = codes "session" ∷ [];
  no_req_headers = [];
  resp_headers_black_list = [];
  resp_content_type_ttl = [];
  resp_content_type_ttl_string = [];
  resp_status_code_ttl = [];
  resp_status_code_ttl_string = [];
}

abbrev hello : BackendResponse
hello = record {
  status_code = 200;
  header = [];
  body = codes "hello";
  breaks = false;
  content_length = pos 5;
  close = false;
}

abbrev config : Config
config = record {
  backend_host = codes "backend";
  backend_port = codes "80";
  backend_tls_host = [];
  backend_tls_port = [];
  backend_once = true;
  domain_suffix = codes ".test";
  req_remove_headers = [];
  resp_remove_headers = [];
  custom_tags = [];
  has_cache = true;
}

abbrev env : Env
env = record {
  cfg = config;
  rules = record { general = few_rules; domain = [] };
  os = sound_os;
  fuel = 10;
  parse = λ b. some [];
  split_host_port = λ h. none;
  device_of = λ a. 1;
  hash = λ b. length b;
  round_trip = λ q. some hello;
  limited = none;
  now = 5;
  date = codes "today";
}

abbrev request : List Bytes → Request
request cookies = record {
  method = codes "GET";
  scheme = [];
  host = codes "a.test";
  path = codes "/x";
  raw_query = [];
  tls = false;
  user = none;
  user_agent = [];
  cookies = cookies;
  headers = [];
  proto = codes "HTTP/1.1";
  proto_major = 1;
  content_length = pos 0;
  remote_addr = [];
}

abbrev plain : Request
plain = request []

abbrev page : ItemMem
page = record {
  key = key_of env plain;
  status_code = 200;
  header = [];
  body = codes "hello";
  hit = 0;
  in_use = 0;
  written = 0;
  w = none;
}

abbrev free_entry : Entry Ptr
free_entry = record { key = none; expire_at = 0; slot = none; prev = 0; next = 0 }

abbrev empty_world : World
empty_world = record {
  lsm = record {
    min_lsm_ttl = 60;
    mem = Store.new (λ a. free_entry);
    objects = λ p. record {
      key = key_of env plain;
      status_code = 200;
      hit = 1;
      in_use = 1;
      pooled = false;
    };
    retry_eviction_ch = [];
    logged = [];
  };
  items = λ p. in_memory page;
  lines = record { msg_ch = []; saved = [] };
}

abbrev with_session : Request
with_session = request (codes "session" ∷ [])

refused : admitted env.rules with_session ≡ (false, true)
unfolding admitted is_req_cachable Request.is_req_cachable_ext Request.is_req_cachable_path_content
    Request.is_req_cachable_path_prefix Request.is_req_cachable_path_suffix
    Request.is_req_cachable_cookie_contains
refused = refl

serve_http-uncached_example :
    (s : Served) × (s₂ : Served) × (serve_http env leads (3, 5) with_session empty_world ≡ some s)
    × (serve_http env leads (3, 5) with_session empty_world ≡ some s₂)
    × (s.aborted ≡ false)
    × (s.reply ≡ s₂.reply)
    × (s.log.hit ≡ false)
    × (s.world.items ≡ empty_world.items)
    × (s.world.lsm ≡ refreshed env with_session true empty_world)
serve_http-uncached_example =
    serve_http-uncached env leads (3, 5) with_session true empty_world empty_world refused

let_in : admitted env.rules plain ≡ (true, false)
unfolding admitted domain_rules is_req_cachable Request.is_req_cachable_ext
    Request.is_req_cachable_path_content Request.is_req_cachable_path_prefix
    Request.is_req_cachable_path_suffix Request.is_req_cachable_cookie_contains
let_in = refl

no_range_header : get (codes "Range") plain.headers ≡ []
unfolding get
no_range_header = refl

absent : Store.get env.now (key_of env plain) empty_world.lsm.mem ≡ some missing
unfolding Store.get Store.new lookup
absent = refl

keepable : is_resp_cachable env.rules.general (as_response hello) ≡ (default_ttl, true)
unfolding is_resp_cachable as_response get
keepable = refl

free : (empty_world.lsm.mem.heap 3).key ≡ none
unfolding Store.new
free = refl

-- The backend and the limiter refuse the second request.
serve_http-replays_example :
    (s : Served) × (s' : Served) × (reply : Reply) × (reply' : Reply) × (serve_http env leads
        (3, 5)
        plain
        empty_world
      ≡ some s)
    × (serve_http
          (later env 99 (codes "later") (λ q. none) (some (429, [])))
          gives_up
          (4, 6)
          plain
          s.world
        ≡ some s')
    × (s.aborted ≡ false)
    × (s.reply ≡ some (hide [] reply))
    × (s'.reply ≡ some (hide [] reply'))
    × (reply.status ≡ 200)
    × (reply.body ≡ codes "hello")
    × (s'.log.hit ≡ true)
    × (reply'.status ≡ 200)
    × (reply'.body ≡ codes "hello")
serve_http-replays_example =
    serve_http-replays env 3 5 plain empty_world false default_ttl hello 99 (codes "later")
      (λ q. none) (some (429, [])) gives_up (4, 6) sound_os-IsHealthy refl (omega arith)
      (new-IsSound (λ a. free_entry)) free let_in no_range_header absent refl refl refl keepable
      refl

absent_later : Store.get 99 (key_of env plain) empty_world.lsm.mem ≡ some missing
unfolding Store.get Store.new lookup
absent_later = refl

-- Two requests came while the first one was under way, and the backend would refuse them.
abbrev waiter : ℕ → Waiter
waiter now = record {
  request = plain;
  now = now;
  date = codes "later";
  round_trip = λ q. none;
  limited = some (429, []);
  fresh = (4, 6);
  missed_in = empty_world;
}

waiter-WaitsFor :
    (now : ℕ)
    → Store.get now (key_of env plain) empty_world.lsm.mem ≡ some missing
    → WaitsFor env (key_of env plain) (waiter now)
waiter-WaitsFor now absent_then = record {
  same_key = refl;
  allowed = (false, let_in);
  plain = no_range_header;
  absent = absent_then;
}

serve_waiters-replays_example :
    (s : Served) × (ss : List Served) × (serve_http env leads (3, 5) plain empty_world ≡ some s)
    × (serve_waiters env (waiter 99 ∷ waiter 99 ∷ []) s.world ≡ some ss)
    × AllHit env 200 (codes "hello") (waiter 99 ∷ waiter 99 ∷ []) ss
serve_waiters-replays_example =
    serve_waiters-replays env 3 5 plain empty_world false default_ttl hello
      (waiter 99 ∷ waiter 99 ∷ []) sound_os-IsHealthy refl (omega arith)
      (new-IsSound (λ a. free_entry)) free let_in absent refl refl refl keepable refl refl
      (waiter-WaitsFor 99 absent_later, (waiter-WaitsFor 99 absent_later, tt))

-- The page is in the store, as the item 5.
abbrev page_kept : World
page_kept = record empty_world {
  lsm = record empty_world.lsm {
    mem = Store.set 3 (key_of env plain) (some 5) 70 5 empty_world.lsm.mem;
  };
}

page_kept-IsStored : IsStored (key_of env plain) 5 (in_memory page) 200 page_kept
page_kept-IsStored = record {
  found = λ now. (
    ltb 75 now,
    get-set (new-IsSound (λ a. free_entry)) 3 (key_of env plain) (some 5) 70 5 now
          (key_of env plain) free
        ∙ rw (==_self (key_of env plain)) refl,
  );
  status = refl;
  at = refl;
}

three_not_null : ◌≢◌ {A = Ptr} 3 0
three_not_null e = absurd (omega (arith, e))

five_apart : ◌≢◌ {A = Ptr} 6 5
five_apart e = absurd (omega (arith, e))

calm : page_kept.lsm.mem.evicted ≡ []
unfolding Store.set Store.new
calm = refl

abbrev one_byte_file : VFile
one_byte_file = record { content = 1 ∷ []; size = 1; ttl = 70; expire_at = 99 }

-- It is logged as the item 6, behind a byte of the file.
serve_http-logged_example :
    (w' : World) × (s : Served) × (reply : Reply) × (log_item env
        (λ h. [])
        (4, 6)
        70
        one_byte_file
        []
        page
        page_kept
      ≡ some w')
    × (serve_http env gives_up (4, 7) plain w' ≡ some s)
    × (s.reply ≡ some (hide [] reply))
    × (s.log.hit ≡ true)
    × (reply.status ≡ 200)
    × (reply.body ≡ codes "hello")
serve_http-logged_example =
    serve_http-logged env (λ h. []) 4 5 6 70 one_byte_file [] page 200 page_kept plain false
      gives_up (4, 7) sound_os-IsHealthy
      (set-IsSound (new-IsSound (λ a. free_entry)) 3 (key_of env plain) (some 5) 70 5 three_not_null
        free)
      calm five_apart page_kept-IsStored refl refl refl refl (omega arith) let_in no_range_header
