-- ===== src/Certs/Issued.antt =====
-- Which certificate `GetCertificate` of certs/certs.go serves.
use elinproxy.Prelude.{
  ℕ, ◌≡◌, ap, subst, ◌⊎◌, inl, inr, false, Option, none, some, [], ◌∷◌, ltb, Bool-cases,
  Option-cases,
}
use elinproxy.Lsm.File.{Bytes}
use elinproxy.Certs.{
  Cert, Certs, Lookup, get, get_wc, delete, check_end, find, get_certificate, serve, serve_issued,
  valid, expired, not_found,
}

-- A lookup that is called valid has found a certificate whose end has not passed.
abbrev Fresh : ℕ → Lookup → Type 0
Fresh now (valid c) = ltb c.not_after now ≡ false
Fresh now (expired c) = Unit {0}
Fresh now not_found = Unit {0}

check_end-Fresh : (now : ℕ) (c : Cert) → Fresh now (check_end now c)
check_end-Fresh now c = elim (Bool-cases (ltb c.not_after now)) [ inl t ↦ rw t tt | inr f ↦ rw f f ]

find-Fresh : (now : ℕ) (d : Bytes) (c : Certs) → Fresh now (find now d c)
unfolding find
find-Fresh now d c = elim (Option-cases (get d c.certs)) [
  | inr (x, e) ↦ rw (e, find) (check_end-Fresh now x)
  | inl e ↦ elim (Option-cases (get_wc d c.certs_wc)) [
    | inr (x, e') ↦ rw (e, e', find) (check_end-Fresh now x)
    | inl e' ↦ rw (e, e', find) tt
  ]
]

some-inj : {a b : Cert} → some a ≡ some b → a ≡ b
some-inj {a} e = ap (λ r. elim r [ some x ↦ x | none ↦ a ]) e

-- What certmagic issued is the one thing served that was not looked up.
only_issued :
    (issued : Option Cert) (kept : Certs) (x : Cert)
    → (serve_issued issued kept).1 ≡ some x
    → issued ≡ some x
unfolding serve_issued
only_issued none kept x h = cc
only_issued (some y) kept x h = h

serve-Fresh :
    (now : ℕ) (r : Lookup) (issued : Option Cert) (c : Certs) (x : Cert)
    → Fresh now r
    → (serve r issued c).1 ≡ some x
    → (ltb x.not_after now ≡ false) ⊎ (issued ≡ some x)
unfolding serve
serve-Fresh now (valid y) issued c x f h =
    inl (subst (λ z. ltb z.not_after now ≡ false) (some-inj h) f)
serve-Fresh now (expired y) issued c x f h = inr (only_issued issued (delete y.at c) x h)
serve-Fresh now not_found issued c x f h = inr (only_issued issued c x h)

-- A certificate that GetCertificate serves is one whose end has not passed, or it has just been
-- issued.
pub get_certificate_lem :
    (now : ℕ) (d : Bytes) (issued : Option Cert) (c : Certs) (x : Cert)
    → (get_certificate now d issued c).1 ≡ some x
    → (ltb x.not_after now ≡ false) ⊎ (issued ≡ some x)
unfolding get_certificate
get_certificate_lem now [] issued c x h = cc
get_certificate_lem now (b ∷ n) issued c x h =
    serve-Fresh now (find now (b ∷ n) c) issued c x (find-Fresh now (b ∷ n) c) h
