-- ===== src/Lsm/Store/Use.antt =====
-- What the reference count of an item of lsm/lsm.go protects.
use elinproxy.Prelude.{
  ℕ, ◌+◌, ◌<◌, ◌≡◌, refl, ap, ◌∙◌, true, none, some, List, arith, if◌then◌else◌, ltb, ◌==◌, ==_self,
  Bool-cases, inl, inr,
}
use elinproxy.Kvsm.Entry.{Ptr}
use elinproxy.Kvsm.Store.{Kvsm, Found, int64_mod}
use elinproxy.Kvsm.Store
use elinproxy.Kvsm.Invariant.{IsSound}
use elinproxy.Kvsm.Reads.{get-set}
use elinproxy.Lsm.Store.{
  Lsm, set, get, found_item, hand_out, done, on_evict_internal, put_item, set_object,
}

-- After Set the item is what Get finds under its key, expired once the clock has passed its end, and
-- it counts one use and one hit more. The table meets its invariant, and its pool hands out an
-- entry that is free.
pub get-set_item :
    {queued : ℕ → List Ptr} (c : Lsm) (w : IsSound queued c.mem) (e p : Ptr) (ttl at now : ℕ)
    → (c.mem.heap e).key ≡ none
    → get now (c.objects p).key (set e p ttl at c)
      ≡ some
          (set_object p (hand_out (c.objects p)) (set e p ttl at c), some (p, ltb (at + ttl) now))
unfolding get set found_item
get-set_item c w e p ttl at now free =
    let k = (c.objects p).key in
    let h =
      get-set w e k (some p) ttl at now k free
      ∙ ap
          (λ b.
            if b
            then some (record { value = some p; is_expired = ltb (at + ttl) now; ok = true })
            else Store.get now k c.mem)
          (==_self k) in
    elim (Bool-cases (ltb c.min_lsm_ttl ttl)) [
      | inl t ↦ rw (t, set) (rw (h, get) refl)
      | inr f ↦ rw (f, set) (rw (h, get) refl)
    ]

-- While an item that Get handed out is in use, an eviction leaves it as it is. After Done it counts
-- the uses that it counted before Get, and an eviction gives it to its pool exactly if that was
-- none. The count does not wrap.
pub use_kept :
    (c : Lsm) (p : Ptr)
    → (c.objects p).in_use + 1 < int64_mod
    → let c' = set_object p (hand_out (c.objects p)) c in
      ((on_evict_internal (some p) c').0.objects p ≡ hand_out (c.objects p))
      × (((done p c').objects p).in_use ≡ (c.objects p).in_use)
      × (((on_evict_internal (some p) (done p c')).0.objects p).pooled
          ≡ (if (c.objects p).in_use == 0 then true else (c.objects p).pooled))
unfolding on_evict_internal hand_out done put_item
use_kept c p small = (ground arith, ground arith, ground arith)
