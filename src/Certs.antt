-- ===== src/Certs.antt =====
-- The certificates of certs/certs.go and certs/listcerts.go: which one a host name is served.
mod Tests
pub mod Served
pub mod Issued
pub mod Settings
pub mod Storage
use elinproxy.Prelude.{
  ℕ, ◌+◌, Bool, true, false, Option, none, some, List, [], ◌∷◌, if◌then◌else◌, ltb, ◌==◌, drop,
}
use elinproxy.Lsm.File.{Bytes}
use elinproxy.Text.{same, has_prefix, has_suffix}

-- A certificate behind a pointer. `names` are the DNS names of its leaf, `not_after` its end.
pub record Cert : Type 0 where
  pub at : ℕ
  pub names : List Bytes
  pub not_after : ℕ

-- listCerts, a Go map, with its entries in the order of an iteration.
abbrev pub ListCerts : Type 0
ListCerts = List (Bytes × Cert)

-- Set
unfoldable pub set : Bytes → Cert → ListCerts → ListCerts
set domain c [] = (domain, c) ∷ []
set domain c ((n, d) ∷ l) = if same n domain then (n, c) ∷ l else (n, d) ∷ set domain c l

-- Get
unfoldable pub get : Bytes → ListCerts → Option Cert
get domain [] = none
get domain ((n, c) ∷ l) = if same n domain then some c else get domain l

-- GetWC
unfoldable pub get_wc : Bytes → ListCerts → Option Cert
get_wc domain [] = none
get_wc domain ((candidate, c) ∷ l) = if has_suffix domain candidate then some c else get_wc domain l

pub record Certs : Type 0 where
  pub certs : ListCerts
  pub certs_wc : ListCerts

-- The loop of copySwap over one table. `none` is the nil `exclude`.
abbrev pub excluded : Option ℕ → Cert → Bool
excluded none c = false
excluded (some p) c = c.at == p

unfoldable pub copy_list : Option ℕ → ListCerts → ListCerts → ListCerts
unfolding set
copy_list exclude [] copy = copy
copy_list exclude ((n, c) ∷ l) copy =
    copy_list exclude l (if excluded exclude c then copy else set n c copy)

unfoldable pub copy_swap : Option ℕ → Certs → ListCerts × ListCerts
unfolding copy_list
copy_swap exclude c = (copy_list exclude c.certs [], copy_list exclude c.certs_wc [])

-- "*."
abbrev pub wild_card_prefix : Bytes
wild_card_prefix = 42 ∷ 46 ∷ []

-- The loop of Store over the DNS names.
unfoldable pub store_names : Cert → List Bytes → ListCerts × ListCerts → ListCerts × ListCerts
unfolding set
store_names cert [] lists = lists
store_names cert ([] ∷ ns) lists = store_names cert ns lists
store_names cert ((b ∷ n) ∷ ns) (l, wc) =
    store_names cert ns
      (if has_prefix (b ∷ n) wild_card_prefix then (l, set n cert wc) else (set (b ∷ n) cert l, wc))

-- Store; the `at` of the certificate is the pointer of the copy that is kept.
unfoldable pub store : Cert → Certs → Certs
unfolding copy_swap store_names
store cert c =
    let lists = store_names cert cert.names (copy_swap none c) in
    record { certs = lists.0; certs_wc = lists.1 }

unfoldable pub delete : ℕ → Certs → Certs
unfolding copy_swap
delete p c = let lists = copy_swap (some p) c in record { certs = lists.0; certs_wc = lists.1 }

-- What Get returns: a certificate, one together with ErrCertExpired, or ErrCertNotFound.
pub data Lookup : Type 0 where
  valid expired : Cert → Lookup
  not_found : Lookup

abbrev pub check_end : ℕ → Cert → Lookup
check_end now c = if ltb c.not_after now then expired c else valid c

-- Certs.Get
unfoldable pub find : ℕ → Bytes → Certs → Lookup
unfolding get get_wc
find now domain c = elim (get domain c.certs) [
  | some cert ↦ check_end now cert
  | none ↦ elim (get_wc domain c.certs_wc) [ some cert ↦ check_end now cert | none ↦ not_found ]
]

-- The end of GetCertificate: what certmagic issued is stored and served.
unfoldable pub serve_issued : Option Cert → Certs → Certs × Option Cert
unfolding store
serve_issued none c = (c, none)
serve_issued (some cert) c = (store cert c, some cert)

-- GetCertificate after the lookup: an expired certificate is deleted.
unfoldable pub serve : Lookup → Option Cert → Certs → Certs × Option Cert
unfolding delete serve_issued
serve (valid cert) issued c = (c, some cert)
serve (expired cert) issued c = serve_issued issued (delete cert.at c)
serve not_found issued c = serve_issued issued c

-- GetCertificate, and the certificates afterwards. `issued` is what certmagic's GetCertificate
-- returns, with its leaf parsed; `none` is an error of either.
unfoldable pub get_certificate : ℕ → Bytes → Option Cert → Certs → Certs × Option Cert
unfolding find serve
get_certificate now [] issued c = (c, none)
get_certificate now (b ∷ name) issued c = serve (find now (b ∷ name) c) issued c

-- LoadCertsFromConfig: the pairs that make a certificate are stored, one after the other.
unfoldable pub load_certs_from_config :
    (Bytes × Bytes → Option Cert) → List (Bytes × Bytes) → Certs → Certs
unfolding store
load_certs_from_config key_pair [] c = c
load_certs_from_config key_pair (v ∷ pems) c =
    load_certs_from_config key_pair pems (elim (key_pair v) [ none ↦ c | some crt ↦ store crt c ])
