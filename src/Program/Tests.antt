-- ===== src/Program/Tests.antt =====
-- A server with one address is started, and then reloaded with the same files.
use elinproxy.Prelude.{◌≡◌, refl, true, false, none, some, [], ◌∷◌}
use elinproxy.Prelude.Int.{pos}
use elinproxy.Text.{codes}
use elinproxy.CacheRules.{Rules}
use elinproxy.CacheRules.Config
use elinproxy.Certs.{load_certs_from_config}
use elinproxy.HttpSrv
use elinproxy.Certs.Settings
use elinproxy.HttpSrv.{Srv, new_handler}
use elinproxy.Handler.Proxy
use elinproxy.Program.{
  ServerFile, start_or_reload, load_server_conf, load_cache_rules, with_rules, start_loaded,
  start_or_reload_with,
}
use elinproxy.Program.Starts.{start_or_reload_again}

abbrev no_rules : Rules
no_rules = record {
  general = record {
    no_req_ext = [];
    no_req_path_prefix = [];
    no_req_path_suffix = [];
    no_req_path_contains = [];
    no_req_cookie_contains = [];
    no_req_headers = [];
    resp_headers_black_list = [];
    resp_content_type_ttl = [];
    resp_content_type_ttl_string = [];
    resp_status_code_ttl = [];
    resp_status_code_ttl_string = [];
  };
  domain = [];
}

abbrev proxy : Proxy.Config
proxy = record {
  backend_host = [];
  backend_port = [];
  backend_tls_host = [];
  backend_tls_port = [];
  backend_once = false;
  domain_suffix = [];
  req_remove_headers = [];
  resp_remove_headers = [];
  custom_tags = [];
  has_cache = true;
}

abbrev settings : Settings.Config
settings = record {
  ca = [];
  email = [];
  pem = [];
  etcd_endpoints = [];
  alt_http_port = 80;
  alt_tlsalpn_port = 443;
}

abbrev server_file : ServerFile
server_file = record {
  config = record {
    addresses = codes ":80" ∷ [];
    addresses_tls = [];
    reuse = false;
    debug = false;
    handler = some (record { proxy = proxy; rate_limit = 0; cache_rules = no_rules });
    certs = some settings;
  };
  extra_ttl_string = codes "1s";
  min_lsm_ttl_string = codes "1s";
}

abbrev server : Srv
server = record {
  cfg = record {
    addresses = codes ":80" ∷ [];
    addresses_tls = [];
    reuse = false;
    debug = false;
    handler = none;
    certs = none;
  };
  handler = record {
    cfg = record { proxy = proxy; rate_limit = 8; cache_rules = no_rules };
    rules = no_rules;
    limit = 8;
  };
  certs = (settings, record { certs = []; certs_wc = [] });
}

started :
    start_or_reload
      (λ b. pos 0)
      (λ b. some (pos 1))
      (λ v. none)
      (some server_file)
      (some no_rules)
      none
    ≡ some (some server)
unfolding start_or_reload start_loaded load_server_conf load_cache_rules with_rules
    start_or_reload_with HttpSrv.new Config.parse load_certs_from_config
started = refl

start_or_reload_again_example :
    start_or_reload
      (λ b. pos 0)
      (λ b. some (pos 1))
      (λ v. none)
      (some server_file)
      (some no_rules)
      (some server)
    ≡ none
unfolding load_server_conf load_cache_rules
start_or_reload_again_example =
    start_or_reload_again (λ b. pos 0) (λ b. some (pos 1)) (λ v. none) (some server_file)
      (some server_file) (some no_rules) (some no_rules) server started
