-- ===== src/Certs/Storage/Locks/Entered.antt =====
-- What Lock of certs/cache.go waits for.
use elinproxy.Prelude.{
  ℕ, ◌≡◌, refl, sym, ap, subst, ==_ne, ◌∙◌, true, false, ==_self, Bool-cases, inl, inr, ◌≢◌,
}
use elinproxy.Lsm.File.{Bytes}
use elinproxy.Certs.Storage.Locks.{
  Locks, Pc, idle, entering, finding, asking, held, releasing, leaving, Move, take_mu, get_session,
  granted, unlock, released, leave, System, at_thread, Step, pick, start_system, Steps, stay, more,
}
use elinproxy.Certs.Storage.Locks.Excluded.{critical, IsExclusive, Steps-IsExclusive}

-- A state in which `mu` is free, that thread `j` comes to by steps of its own.
Freed : System → ℕ → Type 0
Freed s j = (t : System) × Steps s t × (t.locks.mu ≡ false) × ((i : ℕ) → i ≢ j → t.pc i ≡ s.pc i)

first : {s t u : System} → Step s t → Steps t u → Steps s u
first st stay = more stay st
first st (more r last) = more (first st r) last

-- One step of thread `j`, and what follows.
move_on :
    (j : ℕ) (s : System) {m : Locks} {p p' : Pc}
    → s.pc j ≡ p
    → Move s.locks p m p'
    → ((t : System) → t.locks ≡ m → t.pc j ≡ p' → Freed t j)
    → Freed s j
unfolding Freed
move_on j s {m} {p} {p'} e mv next =
    let mv' = subst (λ x. Move s.locks x m p') (sym e) mv in
    let (u, r, free, others) =
      next (record { locks = m; pc = at_thread j p' s.pc }) refl (rw (==_self j) refl) in
    (u, first (pick j mv') r, free, λ i ne. others i ne ∙ rw (==_ne i j ne) refl)

module _ (j : ℕ) where
  from_leaving : (s : System) → s.pc j ≡ leaving → Freed s j
  unfolding Freed
  from_leaving s e = move_on j s e leave (λ t at e'. (t, stay, ap (λ x. x.mu) at, λ i ne. refl))

  from_releasing : (key : Bytes) (m : ℕ) (s : System) → s.pc j ≡ releasing key m → Freed s j
  from_releasing key m s e = move_on j s e released (λ t at e'. from_leaving t e')

  from_held : (key : Bytes) (s : System) → s.pc j ≡ held key → Freed s j
  from_held key s e = move_on j s e unlock (λ t at e'. from_releasing key _ t e')

  from_asking : (key : Bytes) (m : ℕ) (s : System) → s.pc j ≡ asking key m → Freed s j
  from_asking key m s e = move_on j s e granted (λ t at e'. from_held key t e')

  from_finding : (key : Bytes) (s : System) → s.pc j ≡ finding key → Freed s j
  from_finding key s e = move_on j s e get_session (λ t at e'. from_asking key _ t e')

  from_critical : (s : System) (p : Pc) → s.pc j ≡ p → critical p ≡ true → Freed s j
  from_critical s (finding key) e h = from_finding key s e
  from_critical s (asking key m) e h = from_asking key m s e
  from_critical s (held key) e h = from_held key s e
  from_critical s (releasing key m) e h = from_releasing key m s e
  from_critical s leaving e h = from_leaving s e
  from_critical s idle e h = cc
  from_critical s (entering key) e h = cc

free_mu :
    (s : System) (i : ℕ)
    → IsExclusive s.locks s.pc
    → critical (s.pc i) ≡ false
    → (t : System) × Steps s t × (t.locks.mu ≡ false) × (t.pc i ≡ s.pc i)
unfolding Freed
free_mu s i inv out = elim (Bool-cases s.locks.mu) [
  | inl t ↦
      let (j, c) = inv.taken t in
      let (u, r, free, others) = from_critical j s (s.pc j) refl c in
      (u, r, free, others i (λ same. let at = ap (λ x. critical (s.pc x)) same in cc))
  | inr f ↦ (s, stay, f, refl)
]

-- No deadlock: from every state that is reached so, a thread that waits in Lock for `mu` takes it
-- after some steps of the others, where etcd grants what they ask for.
pub lock_enters :
    {s : System}
    → Steps start_system s
    → (i : ℕ) (key : Bytes) → s.pc i ≡ entering key
    → (t : System) × Steps s t × (t.pc i ≡ finding key) × (t.locks.mu ≡ true)
lock_enters {s} r i key e =
    let (u, r', free, still) = free_mu s i (Steps-IsExclusive r) (ap critical e) in
    let mv =
      subst (λ x. Move u.locks x (record u.locks { mu = true }) (finding key)) (sym (still ∙ e))
        (take_mu free) in
    (
      record { locks = record u.locks { mu = true }; pc = at_thread i (finding key) u.pc },
      more r' (pick i mv),
      rw (==_self i) refl,
      refl,
    )
