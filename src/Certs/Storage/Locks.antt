-- ===== src/Certs/Storage/Locks.antt =====
-- Lock and Unlock of certs/cache.go, for the threads of one process. Each access to what they share
-- is one step, and what etcd answers to a request for a mutex or for its release is left open. A key
-- is unlocked by the thread that has locked it, as certmagic does. The end of the process at a failed
-- NewSession is a thread that makes no further step.
pub mod Entered
pub mod Excluded
use elinproxy.Prelude.{ℕ, ◌+◌, ◌≡◌, Bool, true, false, Option, none, some, if◌then◌else◌, ◌==◌}
use elinproxy.Lsm.File.{Bytes}
use elinproxy.Text.{same}

-- Of a Storage: whether `mu` is taken, the mutexes of etcd under their keys, and how many sessions
-- were opened. A mutex is named by the number of its session.
pub record Locks : Type 0 where
  pub mu : Bool
  pub mumap : Bytes → Option ℕ
  pub sessions : ℕ

abbrev pub new_locks : Locks
new_locks = record { mu = false; mumap = λ key. none; sessions = 0 }

-- getLockerSession: the session that is not needed stays open, since `Done` of a session gives a
-- channel only.
unfoldable pub get_locker_session : Bytes → Locks → Locks × ℕ
get_locker_session key s = elim (s.mumap key) [
  | some m ↦ (record s { sessions = s.sessions + 1 }, m)
  | none ↦ (
    record s {
      mumap = λ k. if same k key then some s.sessions else s.mumap k;
      sessions = s.sessions + 1;
    },
    s.sessions,
  )
]

-- Where a thread stands: outside, before `mu.Lock`, before getLockerSession, in the Lock of a mutex
-- of etcd, between Lock and Unlock, in the Unlock of that mutex, before `mu.Unlock`.
pub data Pc : Type 0 where
  idle : Pc
  entering : Bytes → Pc
  finding : Bytes → Pc
  asking : Bytes → ℕ → Pc
  held : Bytes → Pc
  releasing : Bytes → ℕ → Pc
  leaving : Pc

pub data Move (s : Locks) : Pc → Locks → Pc → Type 0 where
  call : {key : Bytes} → Move s idle s (entering key)
  take_mu :
      {key : Bytes} → s.mu ≡ false → Move s (entering key) (record s { mu = true }) (finding key)
  get_session :
      {key : Bytes}
      → Move s (finding key) (get_locker_session key s).0 (asking key (get_locker_session key s).1)
  granted : {key : Bytes} {m : ℕ} → Move s (asking key m) s (held key)
  refused : {key : Bytes} {m : ℕ} → Move s (asking key m) s leaving
  unlock :
      {key : Bytes}
      → Move s (held key) (get_locker_session key s).0 (releasing key (get_locker_session key s).1)
  released : {key : Bytes} {m : ℕ} → Move s (releasing key m) s leaving
  leave : Move s leaving (record s { mu = false }) idle

pub record System : Type 0 where
  pub locks : Locks
  pub pc : ℕ → Pc

abbrev pub at_thread : ℕ → Pc → (ℕ → Pc) → ℕ → Pc
at_thread i p pc j = if j == i then p else pc j

pub data Step (s : System) : System → Type 0 where
  pick :
      (i : ℕ) {m : Locks} {p : Pc}
      → Move s.locks (s.pc i) m p
      → Step s (record { locks = m; pc = at_thread i p s.pc })

abbrev pub start_system : System
start_system = record { locks = new_locks; pc = λ i. idle }

-- Any number of steps.
pub data Steps (s : System) : System → Type 0 where
  stay : Steps s s
  more : {t u : System} → Steps s t → Step t u → Steps s u
