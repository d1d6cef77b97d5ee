-- ===== src/Client/Watch.antt =====
-- client/main.go: the watch on the socket's file, which makes the client connect again. What fsnotify
-- sends is a list of events.
use elinproxy.Prelude.{ℕ, ◌+◌, ◌<◌, ◌≡◌, refl, Option, none, some, List, [], ◌∷◌, ◌>>=◌}
use elinproxy.Text.{Bytes}
use elinproxy.Client.{Attempt, succeeds, Client, new_client, reconnect, connect, done}
use elinproxy.Client.Connects.{connect-IsConnected}

-- An event of the file, an error of the watch, or the end of either channel.
pub data Notice : Type 0 where
  event error closed : Notice

-- The number of the next attempt to connect.
abbrev pub next_attempt : Client → ℕ
next_attempt c = elim c.sock [ none ↦ 0 | some m ↦ m + 1 ]

-- startWatcher, up to the end of a channel or of the events; `none` is the end of the fuel of a
-- connect.
unfoldable pub start_watcher : ℕ → (ℕ → Attempt) → List Notice → Client → Option Client
unfolding reconnect
start_watcher fuel attempts [] c = some c
start_watcher fuel attempts (closed ∷ rest) c = some c
start_watcher fuel attempts (event ∷ rest) c = do
  c' ← reconnect fuel attempts (next_attempt c) c
  start_watcher fuel attempts rest c'
start_watcher fuel attempts (error ∷ rest) c = do
  c' ← reconnect fuel attempts (next_attempt c) c
  start_watcher fuel attempts rest c'

-- main, where the watch can be set up
unfoldable pub main : ℕ → (ℕ → Attempt) → Bytes → List Notice → Option Client
unfolding new_client start_watcher
main fuel attempts socket notices = do
  c ← new_client fuel attempts socket
  start_watcher fuel attempts notices c

-- The client has a socket, whose attempt succeeded and which is listened to.
abbrev pub IsOn : (ℕ → Attempt) → Client → Type 0
IsOn attempts c =
    (n : ℕ) × (c.sock ≡ some n) × (attempts n ≡ succeeds) × (l : List ℕ) × (c.listening ≡ n ∷ l)

-- From every attempt on, one succeeds before the fuel is at its end.
abbrev pub IsServed : ℕ → (ℕ → Attempt) → Type 0
IsServed fuel attempts = (n : ℕ) → (k : ℕ) × (k < fuel) × (attempts (n + k) ≡ succeeds)

module _ (fuel : ℕ) (attempts : ℕ → Attempt) (is_served : IsServed fuel attempts) where
  connect-IsOn :
      (n : ℕ) (c : Client)
      → (c' : Client) × (connect fuel attempts n c ≡ some c') × IsOn attempts c'
  connect-IsOn n c =
      let (k, enough, works) = is_served n in
      let (m, c', le, at, connects, is) = connect-IsConnected fuel attempts n k c enough works in
      (c', connects, (n + m, is.connected, at, c.listening, is.heard))

  reconnect-IsOn :
      (n : ℕ) (c : Client)
      → (c' : Client) × (reconnect fuel attempts n c ≡ some c') × IsOn attempts c'
  unfolding reconnect
  reconnect-IsOn n c = connect-IsOn n (done c)

  start_watcher-IsOn :
      (notices : List Notice) (c : Client)
      → IsOn attempts c
      → (c' : Client) × (start_watcher fuel attempts notices c ≡ some c') × IsOn attempts c'
  unfolding start_watcher
  start_watcher-IsOn [] c on = (c, refl, on)
  start_watcher-IsOn (closed ∷ rest) c on = (c, refl, on)
  start_watcher-IsOn (event ∷ rest) c on =
      let (c₁, again, on₁) = reconnect-IsOn (next_attempt c) c in
      let (c₂, ends, on₂) = start_watcher-IsOn rest c₁ on₁ in
      (c₂, rw (again, start_watcher) ends, on₂)
  start_watcher-IsOn (error ∷ rest) c on =
      let (c₁, again, on₁) = reconnect-IsOn (next_attempt c) c in
      let (c₂, ends, on₂) = start_watcher-IsOn rest c₁ on₁ in
      (c₂, rw (again, start_watcher) ends, on₂)

  -- Where from every attempt on one succeeds before the fuel is at its end, the client goes through
  -- whatever the watch sends, up to the end of a channel, and is then connected by an attempt that
  -- succeeded, with a goroutine that listens to its socket.
  pub main-IsOn :
      (socket : Bytes) (notices : List Notice)
      → (c : Client) × (main fuel attempts socket notices ≡ some c) × IsOn attempts c
  unfolding main new_client
  main-IsOn socket notices =
      let begun : Client = record {
        name = socket;
        sock = none;
        open_sockets = [];
        listening = [];
      } in
      let (c₁, made, on₁) = connect-IsOn 0 begun in
      let (c₂, ends, on₂) = start_watcher-IsOn notices c₁ on₁ in (c₂, rw (made, main) ends, on₂)
