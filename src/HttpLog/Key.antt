-- ===== src/HttpLog/Key.antt =====
-- Which requests the cache tells apart (httpsrv/httplog/httplog.go).
use elinproxy.Prelude.{
  ℕ, ◌≡◌, ◌⊎◌, inl, inr, refl, sym, ap, ◌∙◌, Bool, true, false, Option, subst, drop, [], ◌∷◌, ◌++◌,
  arith,
}
use mathlib.Core.List.{append_assoc, head-eq_of_cons-eq, tail-eq_of_cons-eq}
use elinproxy.Prelude.Int.{pos}
use elinproxy.Text.{Bytes, codes}
use elinproxy.Text.Decimal.{itoa, format, format-inj, AllDigits, is_digit, format-AllDigits}
use elinproxy.HttpLog.{Request, HttpLog, new, url_of, schema_of, get_key_str, get_key_str_device}

clash : {b b' : Bool} → b ≡ b' → b' ≡ true → b ≡ false → ⊥
clash e t f = cc

-- Digits in front of texts that begin with no digit.
split_digits :
    (d d' : Bytes) (c c' : ℕ) (s s' : Bytes)
    → AllDigits d
    → AllDigits d'
    → is_digit c ≡ false
    → is_digit c' ≡ false
    → d ++ c ∷ s ≡ d' ++ c' ∷ s'
    → (d ≡ d') × (c ∷ s ≡ c' ∷ s')
split_digits [] [] c c' s s' h h' n n' e = (refl, e)
split_digits [] (x ∷ d') c c' s s' h h' n n' e =
    absurd (clash (ap is_digit (head-eq_of_cons-eq e)) h'.0 n)
split_digits (x ∷ d) [] c c' s s' h h' n n' e =
    absurd (clash (sym (ap is_digit (head-eq_of_cons-eq e))) h.0 n')
split_digits (x ∷ d) (y ∷ d') c c' s s' h h' n n' e =
    let (same, rest) = split_digits d d' c c' s s' h.1 h'.1 n n' (tail-eq_of_cons-eq e) in
    ((λ i. head-eq_of_cons-eq e i ∷ same i), rest)

-- A text that begins, and not with a digit.
abbrev NotDigit : Bytes → Type 0
NotDigit [] = ⊥
NotDigit (c ∷ s) = is_digit c ≡ false

split_texts :
    (d d' t t' : Bytes)
    → AllDigits d
    → AllDigits d'
    → NotDigit t
    → NotDigit t'
    → d ++ t ≡ d' ++ t'
    → (d ≡ d') × (t ≡ t')
split_texts d d' [] t' h h' n n' e = absurd n
split_texts d d' (c ∷ s) [] h h' n n' e = absurd n'
split_texts d d' (c ∷ s) (c' ∷ s') h h' n n' e = split_digits d d' c c' s s' h h' n n' e

-- The methods that the cache serves.
abbrev pub Cached : Bytes → Type 0
Cached m = (m ≡ codes "GET") ⊎ (m ≡ codes "HEAD")

Cached-NotDigit : (m u : Bytes) → Cached m → NotDigit (m ++ u)
Cached-NotDigit m u (inl e) = subst (λ x. NotDigit (x ++ u)) (sym e) refl
Cached-NotDigit m u (inr e) = subst (λ x. NotDigit (x ++ u)) (sym e) refl

methods_apart : (m m' u u' : Bytes) → Cached m → Cached m' → m ++ u ≡ m' ++ u' → (m ≡ m') × (u ≡ u')
methods_apart m m' u u' (inl e) (inl e') h =
    (e ∙ sym e', ap (drop 3) (sym (ap (λ x. x ++ u) e) ∙ h ∙ ap (λ x. x ++ u') e'))
methods_apart m m' u u' (inl e) (inr e') h =
    absurd (omega (arith, head-eq_of_cons-eq (sym (ap (λ x. x ++ u) e) ∙ h ∙ ap (λ x. x ++ u') e')))
methods_apart m m' u u' (inr e) (inl e') h =
    absurd (omega (arith, head-eq_of_cons-eq (sym (ap (λ x. x ++ u) e) ∙ h ∙ ap (λ x. x ++ u') e')))
methods_apart m m' u u' (inr e) (inr e') h =
    (e ∙ sym e', ap (drop 4) (sym (ap (λ x. x ++ u) e) ∙ h ∙ ap (λ x. x ++ u') e'))

-- Two log lines of requests that the cache serves have the same key only if they have the same
-- device, method and URL.
pub get_key_str-inj :
    (hl hl' : HttpLog)
    → Cached hl.method
    → Cached hl'.method
    → get_key_str hl ≡ get_key_str hl'
    → (hl.device ≡ hl'.device) × (hl.method ≡ hl'.method) × (hl.url ≡ hl'.url)
unfolding get_key_str get_key_str_device itoa
get_key_str-inj hl hl' c c' e =
    let key =
      sym (append_assoc (format hl.device) hl.method hl.url)
      ∙ e
      ∙ append_assoc (format hl'.device) hl'.method hl'.url in
    let (devices, rest) =
      split_texts (format hl.device) (format hl'.device) (hl.method ++ hl.url)
        (hl'.method ++ hl'.url) (format-AllDigits hl.device) (format-AllDigits hl'.device)
        (Cached-NotDigit hl.method hl.url c) (Cached-NotDigit hl'.method hl'.url c') key in
    let (methods, urls) = methods_apart hl.method hl'.method hl.url hl'.url c c' rest in
    (format-inj hl.device hl'.device devices, methods, urls)

-- The path stands in the URL without its escapes, so a request for the path with "?" and `query` in
-- it, and one for the path with that query, have the same key.
pub get_key_str_collides :
    (split_host_port : Bytes → Option Bytes) (device_of : Bytes → ℕ) (r : Request) (c : ℕ)
    (query : Bytes)
    → get_key_str (
        new split_host_port device_of
          (record r { path = r.path ++ codes "?" ++ (c ∷ query); raw_query = [] }))
      ≡ get_key_str (new split_host_port device_of (record r { raw_query = c ∷ query }))
unfolding get_key_str get_key_str_device new url_of
get_key_str_collides split_host_port device_of r c query =
    ap (λ u. itoa (pos (device_of r.user_agent)) ++ r.method ++ u)
      (sym (append_assoc front (r.path ++ codes "?") (c ∷ query))
        ∙ ap (λ x. x ++ (c ∷ query)) (sym (append_assoc front r.path (codes "?"))))
  where
    front : Bytes
    front = schema_of r ++ codes "://" ++ r.host
