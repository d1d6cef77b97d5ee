-- ===== src/Certs/Storage/Tests.antt =====
-- Two threads at the locks of certs/cache.go: thread 0 at the key [1], thread 1 at the key [2].
use elinproxy.Prelude.{ℕ, ◌≡◌, refl, true, [], ◌∷◌}
use elinproxy.Lsm.File.{Bytes}
use elinproxy.Certs.Storage.Locks.{
  finding, call, take_mu, get_session, granted, unlock, System, pick, start_system, Steps, stay,
  more, get_locker_session,
}
use elinproxy.Certs.Storage.Locks.Excluded.{locks_exclude}
use elinproxy.Certs.Storage.Locks.Entered.{lock_enters}

abbrev one : Bytes
one = 1 ∷ []

abbrev two : Bytes
two = 2 ∷ []

abbrev Reached : System → Type 0
Reached s = (t : System) × Steps s t

-- Thread 0 asks etcd for its mutex.
abbrev asked : Reached start_system
unfolding get_locker_session
asked = (
  _,
  more (more (more stay (pick 0 (call {key = one}))) (pick 0 (take_mu refl))) (pick 0 get_session),
)

-- It has got it, and thread 1 waits for `mu`; thread 0 unlocks.
abbrev unlocking : Reached asked.0
unfolding get_locker_session
unlocking =
    (_, more (more (more stay (pick 0 granted)) (pick 1 (call {key = two}))) (pick 0 unlock))

abbrev joined : Steps start_system unlocking.0
unfolding get_locker_session
joined = more (more (more asked.1 (pick 0 granted)) (pick 1 call)) (pick 0 unlock)

locks_exclude_example : ◌≡◌ {A = ℕ} 0 0
unfolding unlocking
locks_exclude_example = locks_exclude joined 0 0 refl refl

lock_enters_example :
    (t : System) × Steps unlocking.0 t × (t.pc 1 ≡ finding two) × (t.locks.mu ≡ true)
unfolding unlocking
lock_enters_example = lock_enters joined 1 two refl

-- The session that the second call opened is not used, and stays open.
sessions_left : unlocking.0.locks.sessions ≡ 2
unfolding get_locker_session unlocking
sessions_left = refl
