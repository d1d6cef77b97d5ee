-- ===== src/Client.antt =====
-- client/client.go: the client that prints what the server publishes. Sockets are numbered in the
-- order in which they are made; what each attempt to connect meets is a parameter.
pub mod Connects
pub mod Watch
mod Tests
use elinproxy.Prelude.{
  ℕ, zero, suc, ◌+◌, Bool, true, false, Option, none, some, List, [], ◌∷◌, ◌++◌, if◌then◌else◌,
  ◌==◌,
}
use elinproxy.Text.{Bytes}

-- NewSocket fails, or Dial, or SetOption, or none of them.
pub data Attempt : Type 0 where
  no_socket dial_fails subscribe_fails succeeds : Attempt

-- `open_sockets` are the sockets that were made and not closed, and `listening` those that a listen
-- goroutine was started for.
pub record Client : Type 0 where
  pub name : Bytes
  pub sock : Option ℕ
  pub open_sockets : List ℕ
  pub listening : List ℕ

unfoldable pub close_socket : ℕ → List ℕ → List ℕ
close_socket n [] = []
close_socket n (m ∷ ms) = let rest = close_socket n ms in if m == n then ms else m ∷ rest

-- realconnect, with the socket `n` if one is made, and whether there was an error
unfoldable pub real_connect : Attempt → ℕ → Client → Client × Bool
unfolding close_socket
real_connect no_socket n c = (record c { sock = none }, true)
real_connect dial_fails n c = (record c { sock = some n; open_sockets = n ∷ c.open_sockets }, true)
real_connect subscribe_fails n c =
    (record c { sock = some n; open_sockets = close_socket n (n ∷ c.open_sockets) }, true)
real_connect succeeds n c = (record c { sock = some n; open_sockets = n ∷ c.open_sockets }, false)

-- `go c.listen()`
unfoldable pub start_listen : ℕ → Client → Client
start_listen n c = record c { listening = n ∷ c.listening }

-- connect, from the attempt `n` on; `none` is the end of the fuel
unfoldable pub connect : ℕ → (ℕ → Attempt) → ℕ → Client → Option Client
unfolding real_connect start_listen
connect zero attempts n c = none
connect (suc fuel) attempts n c =
    let (c', failed) = real_connect (attempts n) n c in
    let again = connect fuel attempts (n + 1) c' in
    if failed then again else some (start_listen n c')

-- newClient
unfoldable pub new_client : ℕ → (ℕ → Attempt) → Bytes → Option Client
unfolding connect
new_client fuel attempts name =
    connect fuel attempts 0 (record { name = name; sock = none; open_sockets = []; listening = [] })

-- Done; a client has no socket only while it connects.
unfoldable pub done : Client → Client
unfolding close_socket
done c = elim c.sock [
  | none ↦ c
  | some n ↦ record c { open_sockets = close_socket n c.open_sockets }
]

-- reconnect
unfoldable pub reconnect : ℕ → (ℕ → Attempt) → ℕ → Client → Option Client
unfolding done connect
reconnect fuel attempts n c = connect fuel attempts n (done c)

-- listen: the messages that are printed, up to the first error of Recv, which is `none`
unfoldable pub listen : List (Option Bytes) → List Bytes
listen [] = []
listen (none ∷ rest) = []
listen (some msg ∷ rest) = msg ∷ listen rest
