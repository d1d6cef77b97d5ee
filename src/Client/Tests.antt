-- ===== src/Client/Tests.antt =====
-- A client that connects at the third attempt.
use elinproxy.Prelude.{ℕ, zero, suc, ◌≡◌, some, ◌∷◌, refl, none, [], arith, if◌then◌else◌, ◌==◌}
use elinproxy.Client.{Attempt, no_socket, dial_fails, succeeds, Client}
use elinproxy.Client.Connects.{Connected, connect-IsConnected}
use elinproxy.Client.Watch.{event, error, closed, main, IsServed, IsOn, main-IsOn}

abbrev third : ℕ → Attempt
third n = if n == 0 then dial_fails else if n == 1 then no_socket else succeeds

abbrev idle : Client
idle = record { name = []; sock = none; open_sockets = []; listening = [] }

connect-IsConnected_example : Connected 3 third 0 2 idle
connect-IsConnected_example = connect-IsConnected 3 third 0 2 idle (omega arith) refl

-- From every attempt on, the third or an earlier one succeeds.
third-IsServed : IsServed 3 third
third-IsServed zero = (2, omega arith, refl)
third-IsServed (suc zero) = (1, omega arith, refl)
third-IsServed (suc (suc n)) = (0, omega arith, ground arith)

main-IsOn_example :
    (c : Client) × (main 3 third [] (event ∷ error ∷ closed ∷ []) ≡ some c) × IsOn third c
main-IsOn_example = main-IsOn 3 third third-IsServed [] (event ∷ error ∷ closed ∷ [])
