-- ===== src/Client/Connects.antt =====
-- A client connects (client/client.go).
use elinproxy.Prelude.{
  ℕ, zero, suc, ◌+◌, ◌≤◌, ◌<◌, ◌≡◌, refl, sym, ap, ◌∙◌, true, false, some, ◌∷◌, arith,
  if◌then◌else◌, length, ==_self, ◌⊎◌, inl, inr,
}
use elinproxy.Client.{
  Attempt, no_socket, dial_fails, subscribe_fails, succeeds, Client, close_socket, real_connect,
  start_listen, connect,
}

-- The attempts from `n` on, `k` of them, whose Dial fails.
abbrev pub failed_dials : (ℕ → Attempt) → ℕ → ℕ → ℕ
failed_dials attempts n zero = 0
failed_dials attempts n (suc k) =
    (elim (attempts n) [ dial_fails ↦ 1 | _ ↦ 0 ]) + failed_dials attempts (n + 1) k

-- The client is connected by the attempt `n + k`.
pub record IsConnected (attempts : ℕ → Attempt) (n k : ℕ) (c c' : Client) : Type 0 where
  pub connected : c'.sock ≡ some (n + k)
  pub heard : c'.listening ≡ (n + k) ∷ c.listening
  pub still_open : length c'.open_sockets ≡ length c.open_sockets + failed_dials attempts n k + 1

Attempt-cases :
    (a : Attempt) (n : ℕ) (c : Client) → (a ≡ succeeds) ⊎ ((real_connect a n c).1 ≡ true)
unfolding real_connect
Attempt-cases no_socket n c = inr refl
Attempt-cases dial_fails n c = inr refl
Attempt-cases subscribe_fails n c = inr refl
Attempt-cases succeeds n c = inl refl

-- What an attempt without success leaves behind.
after_failure :
    (a : Attempt) (n : ℕ) (c : Client)
    → (real_connect a n c).1 ≡ true
    → let c' = (real_connect a n c).0 in
      (c'.listening ≡ c.listening)
      × (length c'.open_sockets ≡ length c.open_sockets + (elim a [ dial_fails ↦ 1 | _ ↦ 0 ]))
unfolding real_connect close_socket
after_failure no_socket n c failed = (refl, omega arith)
after_failure dial_fails n c failed = (refl, omega arith)
after_failure subscribe_fails n c failed = (
  refl,
  ap (λ b. length (if b then c.open_sockets else n ∷ close_socket n c.open_sockets)) (==_self n)
      ∙ omega arith,
)
after_failure succeeds n c failed = cc

-- What `connect` comes to, by an attempt that is no later than `n + k`.
abbrev pub Connected : ℕ → (ℕ → Attempt) → ℕ → ℕ → Client → Type 0
Connected fuel attempts n k c =
    (m : ℕ) × (c' : Client) × (m ≤ k)
    × (attempts (n + m) ≡ succeeds)
    × (connect fuel attempts n c ≡ some c')
    × IsConnected attempts n m c c'

connect_now :
    (fuel : ℕ) (attempts : ℕ → Attempt) (n k : ℕ) (c : Client)
    → attempts n ≡ succeeds
    → Connected (suc fuel) attempts n k c
unfolding connect real_connect start_listen
connect_now fuel attempts n k c now =
    let at_n : attempts (n + 0) ≡ succeeds = ap attempts (omega arith) ∙ now in
    (
      0,
      start_listen n (real_connect succeeds n c).0,
      omega arith,
      at_n,
      rw (now, connect) refl,
      record {
        connected = ap some (omega arith);
        heard = ap (λ x. x ∷ c.listening) (omega arith);
        still_open = omega arith;
      },
    )

connect_later :
    (fuel : ℕ) (attempts : ℕ → Attempt) (n k : ℕ) (c : Client)
    → (real_connect (attempts n) n c).1 ≡ true
    → Connected fuel attempts (n + 1) k (real_connect (attempts n) n c).0
    → Connected (suc fuel) attempts n (suc k) c
unfolding connect
connect_later fuel attempts n k c failed (m, c', le, works, connects, is) =
    let shift : n + 1 + m ≡ n + suc m = omega arith in
    let (heard, count) = after_failure (attempts n) n c failed in
    (
      suc m,
      c',
      omega arith,
      ap attempts (sym shift) ∙ works,
      ap
            (λ b.
              if b
              then connect fuel attempts (n + 1) (real_connect (attempts n) n c).0
              else some (start_listen n (real_connect (attempts n) n c).0))
            failed
          ∙ connects,
      record {
        connected = is.connected ∙ ap some shift;
        heard =
            is.heard
            ∙ ap (λ x. x ∷ (real_connect (attempts n) n c).0.listening) shift
            ∙ ap (◌∷◌ (n + suc m)) heard;
        still_open = omega (arith, is.still_open, count);
      },
    )

succeeds_not_failed :
    (n : ℕ) (c : Client) (a : Attempt) → a ≡ succeeds → (real_connect a n c).1 ≡ true → ⊥
unfolding real_connect
succeeds_not_failed n c a e failed =
    let f : (real_connect a n c).1 ≡ false = ap (λ x. (real_connect x n c).1) e in cc

-- With fuel above the number of attempts that it takes, the client connects, by an attempt that is no
-- later than a given one that succeeds. Each Dial that failed before has left its socket open.
pub connect-IsConnected :
    (fuel : ℕ) (attempts : ℕ → Attempt) (n k : ℕ) (c : Client)
    → k < fuel
    → attempts (n + k) ≡ succeeds
    → Connected fuel attempts n k c
connect-IsConnected zero attempts n k c enough works = absurd (omega arith)
connect-IsConnected (suc fuel) attempts n zero c enough works =
    connect_now fuel attempts n zero c (ap attempts (omega arith) ∙ works)
connect-IsConnected (suc fuel) attempts n (suc k) c enough works =
    let ih =
      connect-IsConnected fuel attempts (n + 1) k (real_connect (attempts n) n c).0 (omega arith)
        (ap attempts (omega arith) ∙ works) in
    elim (Attempt-cases (attempts n) n c) [
      | inl now ↦ connect_now fuel attempts n (suc k) c now
      | inr failed ↦ connect_later fuel attempts n k c failed ih
    ]
