-- ===== src/HttpSrv/Reloaded.antt =====
-- Reload and Listen of httpsrv/httpsrv.go.
use elinproxy.Prelude.{
  ℕ, zero, suc, ◌+◌, ◌*◌, ◌≡◌, refl, ap, ◌∙◌, Bool, true, false, Option, none, some, List, [], ◌∷◌,
  map, arith, length, length-append, inl, inr, if◌then◌else◌, ◌>>=◌, Bool-cases,
}
use elinproxy.Text.{Bytes}
use elinproxy.Certs.{Cert}
use elinproxy.HttpSrv.{
  Config, Srv, Listener, new, reload, reload_handler, reload_certs, listen, listeners, rounds,
}

no_value :
    {A B : Type 0} (o : Option A) (f : A → Option B) → ((x : A) → f x ≡ none) → (o >>= f) ≡ none
no_value none f h = refl
no_value (some x) f h = h x

-- A server that New made has no configuration of the certificates that Reload could pass on.
new-no_certs :
    (key_pair : Bytes × Bytes → Option Cert) (cfg : Config) (s : Srv)
    → new key_pair cfg ≡ some s
    → s.cfg.certs ≡ none
unfolding new
new-no_certs key_pair cfg s made = ground arith

-- Reload of a server that New made panics, whatever the new configuration is.
pub reload-new :
    (key_pair : Bytes × Bytes → Option Cert) (cfg cfg' : Config) (s : Srv)
    → new key_pair cfg ≡ some s
    → reload key_pair cfg' s ≡ none
unfolding reload reload_certs
reload-new key_pair cfg cfg' s made =
    rw (new-no_certs key_pair cfg s made)
      (no_value (reload_handler cfg'.handler s.handler) _ (λ h. refl))

length-map : {A B : Type 0} (f : A → B) (l : List A) → length (map f l) ≡ length l
length-map f [] = refl
length-map f (x ∷ l) = ap suc (length-map f l)

length-listeners :
    (shared : Bool) (cfg : Config)
    → length (listeners shared cfg) ≡ length cfg.addresses + length cfg.addresses_tls
unfolding listeners
length-listeners shared cfg =
    let plain : Bytes → Listener = λ p. (p, false, shared) in
    let tls : Bytes → Listener = λ p. (p, true, shared) in
    length-append (map plain cfg.addresses) (map tls cfg.addresses_tls)
    ∙ omega (arith, length-map plain cfg.addresses, length-map tls cfg.addresses_tls)

length-rounds : (n : ℕ) (ls : List Listener) → length (rounds n ls) ≡ n * length ls
unfolding rounds
length-rounds zero ls = omega arith
length-rounds (suc n) ls = grind (arith, length-append ls (rounds n ls), length-rounds n ls)

-- Listen starts one listener for each address, or with Reuse one more than there are processors.
pub length-listen :
    (cpus : ℕ) (s : Srv)
    → let n = length s.cfg.addresses + length s.cfg.addresses_tls in
      length (listen cpus s) ≡ (if s.cfg.reuse then (cpus + 1) * n else n)
unfolding listen
length-listen cpus s = elim (Bool-cases s.cfg.reuse) [
  | inl t ↦ rw t (
      length-rounds (cpus + 1) (listeners true s.cfg)
      ∙ ap (◌*◌ (cpus + 1)) (length-listeners true s.cfg))
  | inr f ↦ rw f (length-listeners false s.cfg)
]
