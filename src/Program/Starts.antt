-- ===== src/Program/Starts.antt =====
-- What becomes of the server when it is started and reloaded (main.go).
use elinproxy.Prelude.{
  ◌≡◌, ◌∙◌, refl, ap, Bool, false, not, ◌&&◌, ◌||◌, Option, none, some, arith, Option-cases,
  Bool-cases, inl, inr, if◌then◌else◌,
}
use elinproxy.Kvsm.Invariant.{is_some}
use elinproxy.CacheRules.Config
use elinproxy.Prelude.Int.{ℤ}
use elinproxy.Text.{Bytes}
use elinproxy.CacheRules.{Rules}
use elinproxy.Certs.{Cert}
use elinproxy.HttpSrv
use elinproxy.HttpSrv.{Srv}
use elinproxy.HttpSrv.Reloaded.{reload-new}
use elinproxy.Program.{
  ServerFile, ServerConf, with_durations, load_server_conf, load_cache_rules, with_rules,
  start_or_reload_with, start_loaded, start_or_reload,
}

module _ (atoi : Bytes → ℤ) (parse_duration : Bytes → Option ℤ)
    (key_pair : Bytes × Bytes → Option Cert) where
  new_of_start :
      (cfg : HttpSrv.Config) (s : Srv)
      → start_or_reload_with atoi parse_duration key_pair cfg none ≡ some (some s)
      → HttpSrv.new key_pair cfg ≡ some s
  unfolding start_or_reload_with
  new_of_start cfg s started = ground arith

  -- A server that startOrReload has started.
  pub start-new :
      (file : Option ServerFile) (cache : Option Rules) (s : Srv)
      → start_or_reload atoi parse_duration key_pair file cache none ≡ some (some s)
      → (cfg : HttpSrv.Config) × (HttpSrv.new key_pair cfg ≡ some s)
  unfolding start_or_reload start_loaded
  start-new file cache s started =
      elim (Option-cases (load_server_conf atoi parse_duration key_pair file)) [
        | inl e ↦ ground arith
        | inr (none, e) ↦ ground arith
        | inr (some conf, e) ↦
            elim (Option-cases (load_cache_rules atoi parse_duration key_pair cache)) [
              | inl e' ↦ ground arith
              | inr (rules, e') ↦
                  elim (Option-cases (with_rules atoi parse_duration key_pair rules conf.config)) [
                    | inl e'' ↦ ground arith
                    | inr (cfg, e'') ↦ (cfg, new_of_start cfg s (ground arith))
                  ]
            ]
      ]

  -- Whether the configuration has a handler with a cache.
  abbrev pub has_cache : HttpSrv.Config → Bool
  has_cache cfg = elim cfg.handler [ none ↦ false | some h ↦ h.proxy.has_cache ]

  -- Whether both durations of the file can be read.
  abbrev pub has_durations : ServerFile → Bool
  has_durations f =
      is_some (parse_duration f.extra_ttl_string) && is_some (parse_duration f.min_lsm_ttl_string)

  -- When a second startOrReload panics, by what the two files hold.
  abbrev pub second_panics : Option ServerFile → Option Rules → Bool
  second_panics none cache = false
  second_panics (some f) cache = not (has_cache f.config) || has_durations f && is_some cache

  reload_panics :
      (cfg cfg' : HttpSrv.Config) (s : Srv)
      → HttpSrv.new key_pair cfg ≡ some s
      → start_or_reload_with atoi parse_duration key_pair cfg' (some s) ≡ none
  unfolding start_or_reload_with
  reload_panics cfg cfg' s made = rw (reload-new key_pair cfg cfg' s made) refl

  start_loaded_again :
      (conf : ServerConf) (cache : Option Rules) (cfg : HttpSrv.Config) (s : Srv)
      → HttpSrv.new key_pair cfg ≡ some s
      → start_loaded atoi parse_duration key_pair conf cache (some s)
        ≡ (if is_some cache then none else some (some s))
  unfolding start_loaded load_cache_rules
  start_loaded_again conf none cfg s made = refl
  start_loaded_again conf (some rules) cfg s made =
      let general = (Config.parse atoi parse_duration rules.general).0 in
      elim (Option-cases (
        with_rules atoi parse_duration key_pair (record rules { general = general }) conf.config)) [
          | inl e' ↦ rw e' refl
          | inr (cfg', e') ↦ rw e' (reload_panics cfg cfg' s made)
        ]

  -- What loadServerConf makes of a file that is decoded.
  load_server_conf_lem :
      (f : ServerFile)
      → load_server_conf atoi parse_duration key_pair (some f) ≡ (
          if has_cache f.config then some (with_durations atoi parse_duration key_pair f) else none)
  unfolding load_server_conf
  load_server_conf_lem f = elim (Option-cases f.config.handler) [
    | inl e ↦ rw e refl
    | inr (h, e) ↦ rw e refl
  ]

  with_durations-is_some :
      (f : ServerFile) → is_some (with_durations atoi parse_duration key_pair f) ≡ has_durations f
  unfolding with_durations
  with_durations-is_some f = elim (Option-cases (parse_duration f.extra_ttl_string)) [
    | inl e ↦ rw e refl
    | inr (extra, e) ↦ rw e (elim (Option-cases (parse_duration f.min_lsm_ttl_string)) [
      | inl e' ↦ rw e' refl
      | inr (minimum, e') ↦ rw e' refl
    ])
  ]

  -- The rest of startOrReload, by whether the durations could be read.
  again_loaded :
      (loaded : Option ServerConf) (cache : Option Rules) (cfg : HttpSrv.Config) (s : Srv)
      → HttpSrv.new key_pair cfg ≡ some s
      → elim loaded [
        | none ↦ some (some s)
        | some conf ↦ start_loaded atoi parse_duration key_pair conf cache (some s)
      ]
        ≡ (if is_some loaded && is_some cache then none else some (some s))
  again_loaded none cache cfg s made = refl
  again_loaded (some conf) cache cfg s made = start_loaded_again conf cache cfg s made

  -- A second startOrReload, on a server that startOrReload has started, never has an effect. It panics
  -- exactly where the server's file is decoded and names no handler or no cache, or where both its
  -- durations can be read and the file of the rules is decoded; else the server stays as it is.
  pub start_or_reload_again :
      (file file' : Option ServerFile) (cache cache' : Option Rules) (s : Srv)
      → start_or_reload atoi parse_duration key_pair file cache none ≡ some (some s)
      → start_or_reload atoi parse_duration key_pair file' cache' (some s)
        ≡ (if second_panics file' cache' then none else some (some s))
  unfolding start_or_reload load_server_conf
  start_or_reload_again file none cache cache' s started = refl
  start_or_reload_again file (some f) cache cache' s started =
      let (cfg, made) = start-new file cache s started in
      elim (Bool-cases (has_cache f.config)) [
        | inl t ↦
            let loaded : load_server_conf atoi parse_duration key_pair (some f)
                ≡ some (with_durations atoi parse_duration key_pair f) =
              load_server_conf_lem f
              ∙ ap (λ b. if b then some (with_durations atoi parse_duration key_pair f) else none)
                  t in
            rw (loaded, start_or_reload)
              (again_loaded (with_durations atoi parse_duration key_pair f) cache' cfg s made
                ∙ rw (with_durations-is_some f) (rw t refl))
        | inr n ↦
            let loaded : load_server_conf atoi parse_duration key_pair (some f) ≡ none =
              load_server_conf_lem f
              ∙ ap (λ b. if b then some (with_durations atoi parse_duration key_pair f) else none)
                  n in
            rw (loaded, start_or_reload) (rw n refl)
      ]
