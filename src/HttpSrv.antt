-- ===== src/HttpSrv.antt =====
-- httpsrv/httpsrv.go, and what New and Reload of httpsrv/handler/handler.go and of certs/certs.go do
-- for it. The TLS settings and the timeouts of net/http are not modelled.
pub mod Reloaded
use elinproxy.Prelude.{
  ℕ, zero, suc, ◌+◌, Bool, true, false, Option, none, some, List, [], ◌∷◌, ◌++◌, if◌then◌else◌,
  ◌==◌, map, ◌>>=◌,
}
use elinproxy.Text.{Bytes}
use elinproxy.CacheRules.{Rules}
use elinproxy.Handler.Proxy
use elinproxy.Certs.{Cert, Certs, load_certs_from_config}
use elinproxy.Certs.Settings.{Config as CertsConfig}

-- handler.Config
pub record HandlerConfig : Type 0 where
  pub proxy : Proxy.Config
  pub rate_limit : ℕ
  pub cache_rules : Rules

-- Config; the pointers to the other packages' may be nil.
pub record Config : Type 0 where
  pub addresses : List Bytes
  pub addresses_tls : List Bytes
  pub reuse : Bool
  pub debug : Bool
  pub handler : Option HandlerConfig
  pub certs : Option CertsConfig

-- What the running handler has; the limiter is made once.
pub record Handler : Type 0 where
  pub cfg : HandlerConfig
  pub rules : Rules
  pub limit : ℕ

pub record Srv : Type 0 where
  pub cfg : Config
  pub handler : Handler
  pub certs : CertsConfig × Certs

abbrev pub default_rate_limit : ℕ
default_rate_limit = 8

-- handler.New, which panics without a configuration of the cache
unfoldable pub new_handler : HandlerConfig → Option Handler
new_handler cfg =
    let limit = if cfg.rate_limit == 0 then default_rate_limit else cfg.rate_limit in
    if cfg.proxy.has_cache
    then some
        (record { cfg = record cfg { rate_limit = limit }; rules = cfg.cache_rules; limit = limit })
    else none

-- handler.Reload, whose dereference of nil panics, of its own configuration and of the cache's
unfoldable pub reload_handler : Option HandlerConfig → Handler → Option Handler
reload_handler none h = none
reload_handler (some cfg) h = if cfg.proxy.has_cache then some (record h { cfg = cfg }) else none

-- certs.Reload panics on nil. `key_pair` stands for tls.X509KeyPair and x509.ParseCertificate.
unfoldable pub reload_certs :
    (Bytes × Bytes → Option Cert) → Option CertsConfig → Certs → Option (CertsConfig × Certs)
reload_certs key_pair none c = none
reload_certs key_pair (some cfg) c = some (cfg, load_certs_from_config key_pair cfg.pem c)

-- New copies the addresses and Reuse into a configuration of its own. certs.New panics on nil, and
-- so does handler.New.
unfoldable pub new : (Bytes × Bytes → Option Cert) → Config → Option Srv
unfolding new_handler reload_certs
new key_pair cfg = do
  handler_cfg ← cfg.handler
  handler ← new_handler handler_cfg
  certs ← reload_certs key_pair cfg.certs (record { certs = []; certs_wc = [] })
  some (record {
    cfg = record {
      addresses = cfg.addresses;
      addresses_tls = cfg.addresses_tls;
      reuse = cfg.reuse;
      debug = false;
      handler = none;
      certs = none;
    };
    handler = handler;
    certs = certs;
  })

-- Reload
unfoldable pub reload : (Bytes × Bytes → Option Cert) → Config → Srv → Option Srv
unfolding reload_handler reload_certs
reload key_pair cfg s = do
  let own = record (s.cfg) { reuse = cfg.reuse; debug = cfg.debug }
  handler ← reload_handler cfg.handler s.handler
  certs ← reload_certs key_pair own.certs s.certs.1
  some (record { cfg = own; handler = handler; certs = certs })

-- The goroutines that Listen starts: an address, whether it is for TLS, and whether it is shared.
abbrev pub Listener : Type 0
Listener = Bytes × Bool × Bool

-- One round over the addresses.
unfoldable pub listeners : Bool → Config → List Listener
listeners shared cfg =
    map (λ (p : Bytes). (p, false, shared)) cfg.addresses
    ++ map (λ (p : Bytes). (p, true, shared)) cfg.addresses_tls

unfoldable pub rounds : ℕ → List Listener → List Listener
rounds zero ls = []
rounds (suc n) ls = ls ++ rounds n ls

-- Listen, up to its wait; `i <= runtime.NumCPU()`
unfoldable pub listen : ℕ → Srv → List Listener
unfolding listeners rounds
listen cpus s =
    if s.cfg.reuse then rounds (cpus + 1) (listeners true s.cfg) else listeners false s.cfg

-- runListen and runListenTLS: the sockets that are open after a goroutine's call of Listen
unfoldable pub run_listen : (Listener → Bool) → Listener → List Listener → List Listener
run_listen works l open_sockets = if works l then open_sockets ++ l ∷ [] else open_sockets
