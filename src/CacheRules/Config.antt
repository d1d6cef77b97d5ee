-- ===== src/CacheRules/Config.antt =====
-- httpsrv/cacherules/parse.go: the configured strings become durations. strconv.Atoi and
-- time.ParseDuration are parameters: the number (0 or a bound of int where the text is no number),
-- and the duration or `none` for an error, with which ParseDuration returns 0.
pub mod Parsed
use elinproxy.Prelude.{ℕ, Bool, true, false, Option, none, some, List, [], ◌∷◌, if◌then◌else◌}
use elinproxy.Prelude.Assoc.{insert}
use elinproxy.Prelude.Int.{ℤ, pos, pos_part, ltb_ℤ}
use elinproxy.Lsm.File.{Bytes}
use elinproxy.CacheRules.{InternalRules}
use elinproxy.Text.{same}

-- A write to a Go map with texts as keys.
unfoldable pub put : Bytes → ℤ → List (Bytes × ℤ) → List (Bytes × ℤ)
put k v [] = (k, v) ∷ []
put k v ((j, u) ∷ m) = if same j k then (k, v) ∷ m else (j, u) ∷ put k v m

module _ (atoi : Bytes → ℤ) (parse_duration : Bytes → Option ℤ) where
  -- The loop over the codes: the map so far, and whether it ended without an error.
  unfoldable pub parse_codes : List (Bytes × Bytes) → List (ℕ × ℤ) → List (ℕ × ℤ) × Bool
  parse_codes [] m = (m, true)
  parse_codes ((k, v) ∷ l) m =
      let c = pos_part (atoi k) in
      let skipped = parse_codes l m in
      let kept : List (ℕ × ℤ) × Bool = elim (parse_duration v) [
        | some d ↦ parse_codes l (insert c d m)
        | none ↦ (insert c (pos 0) m, false)
      ] in
      if ltb_ℤ (atoi k) (pos 100) then skipped else kept

  unfoldable pub parse_types : List (Bytes × Bytes) → List (Bytes × ℤ) → List (Bytes × ℤ) × Bool
  unfolding put
  parse_types [] m = (m, true)
  parse_types ((k, v) ∷ l) m = elim (parse_duration v) [
    | some d ↦ parse_types l (put k d m)
    | none ↦ (put k (pos 0) m, false)
  ]

  -- Parse; `false` stands for the error
  unfoldable pub parse : InternalRules → InternalRules × Bool
  unfolding parse_codes parse_types
  parse ir =
      let (codes, fine) = parse_codes ir.resp_status_code_ttl_string [] in
      let (types, fine') = parse_types ir.resp_content_type_ttl_string [] in
      if fine
      then (record ir { resp_status_code_ttl = codes; resp_content_type_ttl = types }, fine')
      else (record ir { resp_status_code_ttl = codes }, false)
