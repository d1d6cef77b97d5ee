-- ===== src/Certs/Served.antt =====
-- Which certificate a host name is served after the calls of certs/certs.go.
use elinproxy.Prelude.{
  ℕ, ◌≡◌, ◌≢◌, refl, sym, ap, ◌∙◌, subst, inl, inr, Bool, true, false, Option, none, some, List, [],
  ◌∷◌, ◌++◌, if◌then◌else◌, ltb, ◌==◌, Bool-cases, Option-cases,
}
use elinproxy.Lsm.File.{Bytes}
use elinproxy.Text.{same, same_eq, same_self, has_prefix, has_suffix}
use elinproxy.Certs.{
  Cert, ListCerts, Certs, Lookup, set, get, get_wc, copy_list, copy_swap, store_names, store,
  delete, check_end, find, wild_card_prefix, valid, expired, not_found,
}

-- No entry of the table is the certificate at `p`.
abbrev pub Without : ℕ → ListCerts → Type 0
Without p [] = Unit {0}
Without p ((n, c) ∷ l) = ((c.at == p) ≡ false) × Without p l

module _ (p : ℕ) where
  set-Without :
      (n : Bytes) (c : Cert) (l : ListCerts)
      → (c.at == p) ≡ false
      → Without p l
      → Without p (set n c l)
  unfolding set
  set-Without n c [] ne w = (ne, tt)
  set-Without n c ((j, d) ∷ l) ne w = elim (Bool-cases (same j n)) [
    | inl t ↦ rw t (ne, w.1)
    | inr f ↦ rw f (w.0, set-Without n c l ne w.1)
  ]

  copy_list-Without : (l copy : ListCerts) → Without p copy → Without p (copy_list (some p) l copy)
  unfolding copy_list
  copy_list-Without [] copy w = w
  copy_list-Without ((n, c) ∷ l) copy w = elim (Bool-cases (c.at == p)) [
    | inl t ↦ rw t (copy_list-Without l copy w)
    | inr f ↦ rw f (copy_list-Without l (set n c copy) (set-Without n c copy f w))
  ]

  -- What a lookup in such a table finds is not at `p`.
  abbrev pub Not : Option Cert → Type 0
  Not none = Unit {0}
  Not (some c) = (c.at == p) ≡ false

  get-Not : (d : Bytes) (l : ListCerts) → Without p l → Not (get d l)
  unfolding get
  get-Not d [] w = tt
  get-Not d ((n, c) ∷ l) w = elim (Bool-cases (same n d)) [
    | inl t ↦ rw t w.0
    | inr f ↦ rw f (get-Not d l w.1)
  ]

  get_wc-Not : (d : Bytes) (l : ListCerts) → Without p l → Not (get_wc d l)
  unfolding get_wc
  get_wc-Not d [] w = tt
  get_wc-Not d ((n, c) ∷ l) w = elim (Bool-cases (has_suffix d n)) [
    | inl t ↦ rw t w.0
    | inr f ↦ rw f (get_wc-Not d l w.1)
  ]

  -- The certificate of a lookup, valid or expired.
  abbrev pub cert_of : Lookup → Option Cert
  cert_of (valid c) = some c
  cert_of (expired c) = some c
  cert_of not_found = none

  cert_of-check_end : (now : ℕ) (c : Cert) → cert_of (check_end now c) ≡ some c
  cert_of-check_end now c = elim (Bool-cases (ltb c.not_after now)) [
    | inl t ↦ rw t refl
    | inr f ↦ rw f refl
  ]

  find-Not :
      (now : ℕ) (d : Bytes) (c : Certs)
      → Without p c.certs
      → Without p c.certs_wc
      → Not (cert_of (find now d c))
  unfolding find
  find-Not now d c w w' = elim (Option-cases (get d c.certs)) [
    | inr (x, e) ↦ rw (e, find) (rw (cert_of-check_end now x) (subst Not e (get-Not d c.certs w)))
    | inl e ↦ elim (Option-cases (get_wc d c.certs_wc)) [
      | inr (x, e') ↦
          rw (e, e', find)
            (rw (cert_of-check_end now x) (subst Not e' (get_wc-Not d c.certs_wc w')))
      | inl e' ↦ rw (e, e', find) tt
    ]
  ]

  -- After Delete of the certificate at `p` no host name is served that certificate, by its own
  -- name or by a wild card.
  pub find-delete : (now : ℕ) (d : Bytes) (c : Certs) → Not (cert_of (find now d (delete p c)))
  unfolding delete copy_swap
  find-delete now d c =
      find-Not now d (delete p c) (copy_list-Without c.certs [] tt)
        (copy_list-Without c.certs_wc [] tt)

same_trans : (j n d : Bytes) → same j n ≡ true → same j d ≡ same n d
same_trans j n d h = ap (λ x. same x d) (same_eq j n h)

not_same : (j n d : Bytes) → same j n ≡ false → same j d ≡ true → same n d ≡ false
not_same j n d f t = elim (Bool-cases (same n d)) [
  | inr u ↦ u
  | inl u ↦
      let e = same_eq j d t ∙ sym (same_eq n d u) in
      let yes = subst (λ x. same x n ≡ true) (sym e) (same_self n) in cc
]

get-set :
    (d n : Bytes) (c : Cert) (l : ListCerts)
    → get d (set n c l) ≡ (if same n d then some c else get d l)
unfolding get set
get-set d n c [] = refl
get-set d n c ((j, e) ∷ l) = elim (Bool-cases (same j n)) [
  | inl t ↦ rw t (
      rw (same_trans j n d t)
        (elim (Bool-cases (same n d)) [ inl u ↦ rw u refl | inr u ↦ rw u refl ]))
  | inr f ↦ rw f (elim (Bool-cases (same j d)) [
    | inl t ↦ rw (t, not_same j n d f t) refl
    | inr u ↦ rw (u, get-set d n c l) refl
  ])
]

either_way : (b : Bool) (x : Option Cert) {y : Option Cert} → y ≡ x → (if b then x else y) ≡ x
either_way true x h = refl
either_way false x h = h

module _ (cert : Cert) (d : Bytes) where
  -- Storing more names keeps what the name is served.
  keep_names :
      (ns : List Bytes) (l wc : ListCerts)
      → get d l ≡ some cert
      → get d (store_names cert ns (l, wc)).0 ≡ some cert
  unfolding store_names
  keep_names [] l wc h = h
  keep_names ([] ∷ ns) l wc h = keep_names ns l wc h
  keep_names ((b ∷ n) ∷ ns) l wc h = elim (Bool-cases (has_prefix (b ∷ n) wild_card_prefix)) [
    | inl t ↦ rw (t, store_names) (keep_names ns l (set n cert wc) h)
    | inr f ↦
        rw (f, store_names)
          (keep_names ns (set (b ∷ n) cert l) wc
            (get-set d (b ∷ n) cert l ∙ either_way (same (b ∷ n) d) (some cert) h))
  ]

first_name :
    (cert : Cert) (d : Bytes) (ns : List Bytes) (lists : ListCerts × ListCerts)
    → d ≢ []
    → has_prefix d wild_card_prefix ≡ false
    → get d (store_names cert (d ∷ ns) lists).0 ≡ some cert
unfolding store_names
first_name cert [] ns lists ne plain = absurd (ne refl)
first_name cert (b ∷ n) ns (l, wc) ne plain =
    rw (plain, store_names)
      (keep_names cert (b ∷ n) ns (set (b ∷ n) cert l) wc (
        get-set (b ∷ n) (b ∷ n) cert l
        ∙ ap (λ t. if t then some cert else get (b ∷ n) l) (same_self (b ∷ n))))

stored_name :
    (cert : Cert) (d : Bytes) (before after : List Bytes) (lists : ListCerts × ListCerts)
    → d ≢ []
    → has_prefix d wild_card_prefix ≡ false
    → get d (store_names cert (before ++ d ∷ after) lists).0 ≡ some cert
unfolding store_names
stored_name cert d [] after lists ne plain = first_name cert d after lists ne plain
stored_name cert d ([] ∷ ns) after lists ne plain = stored_name cert d ns after lists ne plain
stored_name cert d ((b ∷ n) ∷ ns) after (l, wc) ne plain = stored_name cert d ns after _ ne plain

find-get :
    (now : ℕ) (d : Bytes) (c : Certs) (x : Cert)
    → get d c.certs ≡ some x
    → find now d c ≡ check_end now x
unfolding find
find-get now d c x e = rw (e, find) refl

-- After Store of a certificate a host name that is one of its DNS names, and neither empty nor a
-- wild card, is served that certificate, or it with ErrCertExpired once its end has passed.
pub find-store :
    (cert : Cert) (d : Bytes) (now : ℕ) (before after : List Bytes) (c : Certs)
    → cert.names ≡ before ++ d ∷ after
    → d ≢ []
    → has_prefix d wild_card_prefix ≡ false
    → find now d (store cert c) ≡ check_end now cert
unfolding store
find-store cert d now before after c at ne plain = find-get now d (store cert c) cert (
    subst (λ ns. get d (store_names cert ns (copy_swap none c)).0 ≡ some cert) (sym at)
      (stored_name cert d before after (copy_swap none c) ne plain))
