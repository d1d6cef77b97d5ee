-- ===== src/Program.antt =====
-- main.go: the configuration, and the start or the reload of the server. The decoder of TOML and
-- time.ParseDuration are parameters; flags, metrics and the log are left out.
pub mod Starts
mod Tests
use elinproxy.Prelude.{
  ℕ, Bool, true, false, Option, none, some, List, [], ◌∷◌, if◌then◌else◌, ◌>>=◌,
}
use elinproxy.Prelude.Int.{ℤ}
use elinproxy.Text.{Bytes}
use elinproxy.CacheRules.{Rules, InternalRules}
use elinproxy.CacheRules.Config
use elinproxy.Certs.{Cert}
use elinproxy.HttpSrv
use elinproxy.HttpSrv.{Srv}

-- What the decoder finds in the file of the server.
pub record ServerFile : Type 0 where
  pub config : HttpSrv.Config
  pub extra_ttl_string : Bytes
  pub min_lsm_ttl_string : Bytes

-- The configuration and the two durations of the cache.
pub record ServerConf : Type 0 where
  pub config : HttpSrv.Config
  pub extra_ttl : ℤ
  pub min_lsm_ttl : ℤ

module _ (atoi : Bytes → ℤ) (parse_duration : Bytes → Option ℤ)
    (key_pair : Bytes × Bytes → Option Cert) where
  unfoldable with_durations : ServerFile → Option ServerConf
  with_durations f = do
    extra ← parse_duration f.extra_ttl_string
    minimum ← parse_duration f.min_lsm_ttl_string
    some (record { config = f.config; extra_ttl = extra; min_lsm_ttl = minimum })

  -- loadServerConf. Without a file there was an error of the decoder. The outer `none` is the panic
  -- where the file names no handler or no cache, and the inner one an error.
  unfoldable pub load_server_conf : Option ServerFile → Option (Option ServerConf)
  unfolding with_durations
  load_server_conf none = some none
  load_server_conf (some f) = do
    h ← f.config.handler
    if h.proxy.has_cache then some (with_durations f) else none

  -- loadCacheRules; the error of Parse is dropped.
  unfoldable pub load_cache_rules : Option Rules → Option Rules
  load_cache_rules file = do
    rules ← file
    some (record rules { general = (Config.parse atoi parse_duration rules.general).0 })

  -- `srvConf.Handler.CacheRules = …`; a nil Handler panics.
  unfoldable pub with_rules : Rules → HttpSrv.Config → Option HttpSrv.Config
  with_rules rules cfg = do
    h ← cfg.handler
    some (record cfg { handler = some (record h { cache_rules = rules }) })

  unfoldable pub start_or_reload_with : HttpSrv.Config → Option Srv → Option (Option Srv)
  start_or_reload_with cfg none = do s ← HttpSrv.new key_pair cfg; some (some s)
  start_or_reload_with cfg (some server) = do s ← HttpSrv.reload key_pair cfg server; some (some s)

  -- startOrReload, from the cache rules on
  unfoldable pub start_loaded : ServerConf → Option Rules → Option Srv → Option (Option Srv)
  start_loaded conf cache_file server = elim (load_cache_rules cache_file) [
    | none ↦ some server
    | some rules ↦ (do cfg ← with_rules rules conf.config; start_or_reload_with cfg server)
  ]

  -- startOrReload, up to Listen: the server that runs after it. `main` calls it once, and a reload is
  -- another call. The outer `none` is a panic.
  unfoldable pub start_or_reload :
      Option ServerFile → Option Rules → Option Srv → Option (Option Srv)
  start_or_reload server_file cache_file server = do
    loaded ← load_server_conf server_file
    elim loaded [ none ↦ some server | some conf ↦ start_loaded conf cache_file server ]
