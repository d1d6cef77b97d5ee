-- ===== src/CacheRules/Config/Parsed.antt =====
-- When `Parse` of httpsrv/cacherules/parse.go succeeds.
use elinproxy.Prelude.{
  ℕ, ◌≡◌, refl, ◌↔◌, Bool, true, false, not, ◌&&◌, Option, none, some, List, [], ◌∷◌, Bool-cases,
  Option-cases, inl, inr,
}
use elinproxy.Prelude.Assoc.{insert}
use elinproxy.Prelude.Int.{ℤ, pos, pos_part, ltb_ℤ}
use elinproxy.Lsm.File.{Bytes}
use elinproxy.CacheRules.{InternalRules}
use elinproxy.Text.{none_of, NoneOf, none_of_iff, both}
use elinproxy.CacheRules.Config.{put, parse_codes, parse_types, parse}

abbrev fails : Option ℤ → Bool
fails none = true
fails (some d) = false

module _ (atoi : Bytes → ℤ) (parse_duration : Bytes → Option ℤ) where
  -- An entry with a code of 100 or more whose duration is malformed.
  abbrev pub BadCode : Bytes × Bytes → Type 0
  BadCode (k, v) = (ltb_ℤ (atoi k) (pos 100) ≡ false) × (parse_duration v ≡ none)

  abbrev pub BadType : Bytes × Bytes → Type 0
  BadType (k, v) = parse_duration v ≡ none

  abbrev bad_code : Bytes × Bytes → Bool
  bad_code (k, v) = not (ltb_ℤ (atoi k) (pos 100)) && fails (parse_duration v)

  abbrev bad_type : Bytes × Bytes → Bool
  bad_type (k, v) = fails (parse_duration v)

  fails_iff : (o : Option ℤ) → (fails o ≡ true) ↔ (o ≡ none)
  fails_iff none = (λ h. refl, λ h. refl)
  fails_iff (some d) = (λ h. cc, λ h. cc)

  bad_iff : (b : Bool) (o : Option ℤ) → ((not b && fails o) ≡ true) ↔ ((b ≡ false) × (o ≡ none))
  bad_iff true o = (λ h. cc, λ (e, h). cc)
  bad_iff false o = (λ h. (refl, (fails_iff o).0 h), λ (e, h). (fails_iff o).1 h)

  codes_end :
      (l : List (Bytes × Bytes)) (m : List (ℕ × ℤ))
      → (parse_codes atoi parse_duration l m).1 ≡ none_of bad_code l
  unfolding parse_codes
  codes_end [] m = refl
  codes_end ((k, v) ∷ l) m = elim (Bool-cases (ltb_ℤ (atoi k) (pos 100))) [
    | inl low ↦ rw (low, parse_codes) (codes_end l m)
    | inr high ↦ elim (Option-cases (parse_duration v)) [
      | inl e ↦ rw (high, e, parse_codes) refl
      | inr (d, e) ↦ rw (high, e, parse_codes) (codes_end l (insert (pos_part (atoi k)) d m))
    ]
  ]

  types_end :
      (l : List (Bytes × Bytes)) (m : List (Bytes × ℤ))
      → (parse_types atoi parse_duration l m).1 ≡ none_of bad_type l
  unfolding parse_types
  types_end [] m = refl
  types_end ((k, v) ∷ l) m = elim (Option-cases (parse_duration v)) [
    | inl e ↦ rw (e, parse_types) refl
    | inr (d, e) ↦ rw (e, parse_types) (types_end l (put k d m))
  ]

  parse_end :
      (ir : InternalRules)
      → (parse atoi parse_duration ir).1 ≡ (
          none_of bad_code ir.resp_status_code_ttl_string
          && none_of bad_type ir.resp_content_type_ttl_string)
  unfolding parse
  parse_end ir =
      let codes = codes_end ir.resp_status_code_ttl_string [] in
      let types = types_end ir.resp_content_type_ttl_string [] in
      elim (Bool-cases (parse_codes atoi parse_duration ir.resp_status_code_ttl_string []).1) [
        | inl t ↦ rw (← codes, ← types, t) refl
        | inr f ↦ rw (← codes, f) refl
      ]

  -- `Parse` succeeds exactly when every duration in the rules on codes of 100 and more and in the
  -- rules on content types is well formed.
  pub parse_iff :
      (ir : InternalRules)
      → ((parse atoi parse_duration ir).1 ≡ true) ↔ (
          NoneOf BadCode ir.resp_status_code_ttl_string
          × NoneOf BadType ir.resp_content_type_ttl_string)
  parse_iff ir =
      let codes =
        none_of_iff bad_code BadCode
          (λ (k, v). bad_iff (ltb_ℤ (atoi k) (pos 100)) (parse_duration v))
          ir.resp_status_code_ttl_string in
      let types =
        none_of_iff bad_type BadType (λ (k, v). fails_iff (parse_duration v))
          ir.resp_content_type_ttl_string in
      rw (parse_end ir) (
        λ h. let (c, t) = both _ _ h in (codes.0 c, types.0 t),
        λ (c, t). rw (codes.1 c, types.1 t) refl,
      )
