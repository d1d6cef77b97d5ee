-- ===== src/Certs/Storage/Locks/Excluded.antt =====
-- What Lock and Unlock of certs/cache.go keep apart.
use elinproxy.Prelude.{
  ℕ, ◌≡◌, refl, sym, ap, ◌∙◌, Bool, true, false, Option, none, some, if◌then◌else◌, ◌==◌,
  Bool-cases, inl, inr, arith, Option-cases,
}
use elinproxy.Lsm.File.{Bytes}
use elinproxy.Text.{same, same_eq, same_self}
use elinproxy.Certs.Storage.Locks.{
  Locks, Pc, idle, entering, asking, releasing, Move, call, take_mu, get_session, unlock, leave,
  System, at_thread, pick, start_system, Steps, stay, more, get_locker_session,
}

-- The thread has taken `mu`.
abbrev pub critical : Pc → Bool
critical idle = false
critical (entering key) = false
critical _ = true

-- The mutex that a thread uses, with its key.
abbrev pub mutex_of : Pc → Option (Bytes × ℕ)
mutex_of (asking key m) = some (key, m)
mutex_of (releasing key m) = some (key, m)
mutex_of _ = none

pub record IsExclusive (s : Locks) (pc : ℕ → Pc) : Type 0 where
  pub owned : (i : ℕ) → critical (pc i) ≡ true → s.mu ≡ true
  pub alone : (i j : ℕ) → critical (pc i) ≡ true → critical (pc j) ≡ true → i ≡ j
  pub taken : s.mu ≡ true → (i : ℕ) × (critical (pc i) ≡ true)
  pub kept : (i : ℕ) (key : Bytes) (m : ℕ) → mutex_of (pc i) ≡ some (key, m) → s.mumap key ≡ some m

set_free :
    (key : Bytes) (s : Locks) (k : Bytes) (m : ℕ)
    → s.mumap key ≡ none
    → s.mumap k ≡ some m
    → (if same k key then some s.sessions else s.mumap k) ≡ some m
set_free key s k m free h = elim (Bool-cases (same k key)) [
  | inl t ↦ let at : s.mumap k ≡ s.mumap key = ap s.mumap (same_eq k key t) in cc
  | inr f ↦ rw f h
]

-- getLockerSession gives the mutex that stands under the key afterwards, and moves none.
get_locker_session-kept :
    (key : Bytes) (s : Locks)
    → let r = get_locker_session key s in
      (r.0.mumap key ≡ some r.1)
      × (r.0.mu ≡ s.mu)
      × ((k : Bytes) (m : ℕ) → s.mumap k ≡ some m → r.0.mumap k ≡ some m)
unfolding get_locker_session
get_locker_session-kept key s = elim (Option-cases (s.mumap key)) [
  | inl e ↦
      rw (e, get_locker_session) (rw (same_self key) refl, refl, λ k m h. set_free key s k m e h)
  | inr (m, e) ↦ rw (e, get_locker_session) (e, refl, λ k m' h. h)
]

start-IsExclusive : IsExclusive start_system.locks start_system.pc
start-IsExclusive = record {
  owned = λ i h. cc;
  alone = λ i j h. cc;
  taken = λ h. cc;
  kept = λ i key m h. cc;
}

module _ {s : Locks} {pc : ℕ → Pc} (inv : IsExclusive s pc) (i : ℕ) where
  open inv use {owned, alone, taken, kept}

  Move-owned :
      {s' : Locks} {p p' : Pc}
      → Move s p s' p'
      → pc i ≡ p
      → (j : ℕ) → critical (at_thread i p' pc j) ≡ true
      → s'.mu ≡ true
  Move-owned (get_session {key}) e j h =
      ground (arith, (get_locker_session-kept key s).1, owned j, owned i)
  Move-owned (unlock {key}) e j h =
      ground (arith, (get_locker_session-kept key s).1, owned j, owned i)
  Move-owned mv e j h = ground (arith, owned j, owned i, alone i j)

  Move-alone :
      {s' : Locks} {p p' : Pc}
      → Move s p s' p'
      → pc i ≡ p
      → (a b : ℕ) → critical (at_thread i p' pc a) ≡ true
      → critical (at_thread i p' pc b) ≡ true
      → a ≡ b
  Move-alone (take_mu g) e a b ha hb = ground (arith, owned a, owned b)
  Move-alone mv e a b ha hb = ground (arith, owned a, owned b, alone a b, alone i a, alone i b)

  Move-kept :
      {s' : Locks} {p p' : Pc}
      → Move s p s' p'
      → (k : Bytes) (m : ℕ) → s.mumap k ≡ some m
      → s'.mumap k ≡ some m
  Move-kept (get_session {key}) k m h = (get_locker_session-kept key s).2 k m h
  Move-kept (unlock {key}) k m h = (get_locker_session-kept key s).2 k m h
  Move-kept mv k m h = h

  Move-own :
      {s' : Locks} {p p' : Pc}
      → Move s p s' p'
      → (key : Bytes) (m : ℕ) → mutex_of p' ≡ some (key, m)
      → s'.mumap key ≡ some m
  Move-own (get_session {key}) k m h = let at = (get_locker_session-kept key s).0 in cc
  Move-own (unlock {key}) k m h = let at = (get_locker_session-kept key s).0 in cc
  Move-own mv k m h = cc

  Move-taken :
      {s' : Locks} {p p' : Pc}
      → Move s p s' p'
      → pc i ≡ p
      → s'.mu ≡ true
      → (j : ℕ) × (critical (at_thread i p' pc j) ≡ true)
  Move-taken call e h = let (j, c) = taken h in (j, ground arith)
  Move-taken leave e h = cc
  Move-taken mv e h = (i, ground arith)

  Move-IsExclusive :
      {s' : Locks} {p' : Pc} → Move s (pc i) s' p' → IsExclusive s' (at_thread i p' pc)
  Move-IsExclusive {s'} {p'} mv = record {
    owned = Move-owned mv refl;
    alone = Move-alone mv refl;
    taken = Move-taken mv refl;
    kept = λ j key m h. elim (Bool-cases (j == i)) [
      | inl t ↦ Move-own mv key m (sym (ap mutex_of (rw t refl)) ∙ h)
      | inr f ↦ Move-kept mv key m (kept j key m (sym (ap mutex_of (rw f refl)) ∙ h))
    ];
  }

pub Steps-IsExclusive : {s : System} → Steps start_system s → IsExclusive s.locks s.pc
Steps-IsExclusive stay = start-IsExclusive
Steps-IsExclusive (more r (pick i mv)) = Move-IsExclusive (Steps-IsExclusive r) i mv

-- A mutex stays under its key.
Steps-mumap :
    {s t : System}
    → IsExclusive s.locks s.pc
    → Steps s t
    → (IsExclusive t.locks t.pc)
      × ((key : Bytes) (m : ℕ) → s.locks.mumap key ≡ some m → t.locks.mumap key ≡ some m)
Steps-mumap inv stay = (inv, λ key m h. h)
Steps-mumap inv (more r (pick i mv)) =
    let (inv', stays) = Steps-mumap inv r in
    (Move-IsExclusive inv' i mv, λ key m h. Move-kept inv' i mv key m (stays key m h))

-- In every state that any number of threads reach from a new Storage, one thread at most is between
-- the `mu.Lock` of Lock and the `mu.Unlock` of Unlock, whatever the keys are.
pub locks_exclude :
    {s : System}
    → Steps start_system s
    → (i j : ℕ) → critical (s.pc i) ≡ true
    → critical (s.pc j) ≡ true
    → i ≡ j
locks_exclude r = (Steps-IsExclusive r).alone

-- The mutex of etcd that a thread locks or unlocks under a key is the one that any thread uses for
-- that key at any later time.
pub mutex_stays :
    {s t : System}
    → Steps start_system s
    → Steps s t
    → (i j : ℕ) (key : Bytes) (m n : ℕ) → mutex_of (s.pc i) ≡ some (key, m)
    → mutex_of (t.pc j) ≡ some (key, n)
    → m ≡ n
mutex_stays r r' i j key m n h h' =
    let inv = Steps-IsExclusive r in
    let (inv', stays) = Steps-mumap inv r' in
    let before = stays key m (inv.kept i key m h) in let after = inv'.kept j key n h' in cc
