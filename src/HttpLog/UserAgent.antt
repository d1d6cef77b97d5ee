-- ===== src/HttpLog/UserAgent.antt =====
-- httpsrv/httplog/useragent.go: the number of the device of a user agent. The user agents of the
-- library uasurfer, its parser, which fills one in, and its Reset are parameters.
use elinproxy.Prelude.{ℕ, ◌≡◌, refl, ap, sym, ◌∙◌, Option, some, List, []}
use mathlib.Core.Option.{some-injective}
use elinproxy.Prelude.Pool.{Call, pool_get, pool_put, pool_run, pool_get-run}
use elinproxy.Text.{Bytes}

module _ {Agent : Type 0} (blank : Agent) (reset : Agent → Agent) where
  unfoldable pub cleared : Agent → Option Agent
  cleared ua = some (reset ua)

  -- getUserAgentID; Put comes after Reset.
  unfoldable pub get_user_agent_id :
      (Bytes → Agent → Agent) → (Agent → ℕ) → Bytes → ℕ → List Agent → List Agent × ℕ
  unfolding pool_get pool_put cleared
  get_user_agent_id parse device_type s place pool =
      let (rest, ua) = pool_get blank cleared place pool in
      let parsed = parse s ua in (pool_put blank cleared parsed rest, device_type parsed)

  -- Where Reset leaves nothing of a user agent, the number of the device depends on the text alone,
  -- whatever the pool was used for before.
  pub get_user_agent_id-run :
      (parse : Bytes → Agent → Agent) (device_type : Agent → ℕ) (s : Bytes)
      (calls : List (Call Agent)) (place : ℕ)
      → ((ua : Agent) → reset ua ≡ blank)
      → (get_user_agent_id parse device_type s place (pool_run blank cleared calls [])).1
        ≡ device_type (parse s blank)
  unfolding get_user_agent_id cleared
  get_user_agent_id-run parse device_type s calls place resets =
      ap (λ ua. device_type (parse s ua))
        (pool_get-run blank cleared (λ ua. ua ≡ blank) refl
          (λ x y e. sym (some-injective (reset x) y e) ∙ resets x) calls place)
