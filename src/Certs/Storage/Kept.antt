-- ===== src/Certs/Storage/Kept.antt =====
-- What certs/cache.go keeps on a cluster that reads back what was written.
use elinproxy.Prelude.{
  ℕ, ◌≡◌, ◌∙◌, refl, ap, sym, subst, Bool, true, false, Option, none, some, ◌++◌, if◌then◌else◌,
  Bool-cases, inl, inr, length, length-append, arith,
}
use elinproxy.Lsm.File.{Bytes}
use elinproxy.Text.{same, same_eq, same_self}
use elinproxy.Certs.Storage.{
  Etcd, ok, key_not_found, modified, store, load, delete, exists, stat, stat_modified,
}

-- Reads see the writes and deletes that succeeded before them.
pub record IsReliable (etcd : Etcd) : Type 0 where
  pub puts :
      (k j v : Bytes) (s : etcd.State)
      → (etcd.put k v s).1 ≡ true
      → etcd.get j (etcd.put k v s).0 ≡ (if same k j then some (some v) else etcd.get j s)
  pub deletes :
      (k j : Bytes) (s : etcd.State)
      → (etcd.delete k s).1 ≡ true
      → etcd.get j (etcd.delete k s).0 ≡ (if same k j then some none else etcd.get j s)

-- The key of the time is not the key itself.
apart : (key : Bytes) → same (key ++ modified) key ≡ false
apart key = elim (Bool-cases (same (key ++ modified) key)) [
  | inr f ↦ f
  | inl t ↦
      absurd
        (omega (arith, ap length (same_eq (key ++ modified) key t), length-append key modified))
]

-- Two calls, of which the second is made if the first succeeded.
twice : {S : Type 0} → S × Bool → (S → S × Bool) → S × Bool
twice r next = if r.1 then next r.0 else (r.0, false)

twice_fine :
    {S : Type 0} (r : S × Bool) (next : S → S × Bool)
    → (twice r next).1 ≡ true
    → (r.1 ≡ true) × ((next r.0).1 ≡ true) × ((twice r next).0 ≡ (next r.0).0)
unfolding twice
twice_fine (s, true) next h = (refl, h, refl)
twice_fine (s, false) next h = cc

module _ (etcd : Etcd) (key : Bytes) (s : etcd.State) where
  load_found :
      (value : Bytes)
      → etcd.get key s ≡ some (some value)
      → (load etcd key s ≡ ok value) × (exists etcd key s ≡ true)
  unfolding load exists
  load_found value e = (rw (e, load) refl, rw (e, exists) refl)

  load_missing :
      etcd.get key s ≡ some none → (load etcd key s ≡ key_not_found) × (exists etcd key s ≡ false)
  unfolding load exists
  load_missing e = (rw (e, load) refl, rw (e, exists) refl)

  stat_found :
      (atoi : Bytes → Option ℕ) (value text : Bytes) (time : ℕ)
      → etcd.get key s ≡ some (some value)
      → etcd.get (key ++ modified) s ≡ some (some text)
      → atoi text ≡ some time
      → stat etcd atoi key s
        ≡ ok (record { key = key; modified = time; is_terminal = true; size = etcd.size key s })
  unfolding stat stat_modified
  stat_found atoi value text time e e' a = rw (e, stat) (rw (e', stat_modified) (rw a refl))

module _ (etcd : Etcd) (reliable : IsReliable etcd) (key : Bytes) (s : etcd.State) where
  module _ (itoa : ℕ → Bytes) (atoi : Bytes → Option ℕ) (now : ℕ) (value : Bytes)
      (agree : atoi (itoa now) ≡ some now) where
    -- On a reliable cluster, and with an Atoi that reads what Itoa wrote, after a Store that
    -- succeeded Load gives the value, Exists holds, and Stat gives the time of the Store
    -- and the size of the entry.
    pub store-load :
        (store etcd itoa now key value s).1 ≡ true
        → let s' = (store etcd itoa now key value s).0 in
          (load etcd key s' ≡ ok value)
          × (exists etcd key s' ≡ true)
          × (stat etcd atoi key s'
              ≡ ok (record {
                key = key;
                modified = now;
                is_terminal = true;
                size = etcd.size key s';
              }))
    unfolding store twice
    store-load h =
        let put₁ = etcd.put key value s in
        let put₂ = etcd.put (key ++ modified) (itoa now) put₁.0 in
        let (fine₁, fine₂, end) = twice_fine put₁ (etcd.put (key ++ modified) (itoa now)) h in
        let here : etcd.get key put₂.0 ≡ some (some value) =
          reliable.puts (key ++ modified) key (itoa now) put₁.0 fine₂
          ∙ rw (apart key) (reliable.puts key key value s fine₁ ∙ rw (same_self key) refl) in
        let time : etcd.get (key ++ modified) put₂.0 ≡ some (some (itoa now)) =
          reliable.puts (key ++ modified) (key ++ modified) (itoa now) put₁.0 fine₂
          ∙ rw (same_self (key ++ modified)) refl in
        let found = load_found etcd key put₂.0 value here in
        subst
          (λ s'.
            (load etcd key s' ≡ ok value)
            × (exists etcd key s' ≡ true)
            × (stat etcd atoi key s'
                ≡ ok (record {
                  key = key;
                  modified = now;
                  is_terminal = true;
                  size = etcd.size key s';
                })))
          (sym end)
          (found.0, found.1, stat_found etcd key put₂.0 atoi value (itoa now) now here time agree)

  -- On a reliable cluster, after a Delete that succeeded Load says that there is no such key, and
  -- Exists does not hold.
  pub delete-load :
      (delete etcd key s).1 ≡ true
      → let s' = (delete etcd key s).0 in
        (load etcd key s' ≡ key_not_found) × (exists etcd key s' ≡ false)
  unfolding delete twice
  delete-load h =
      let del₁ = etcd.delete key s in
      let del₂ = etcd.delete (key ++ modified) del₁.0 in
      let (fine₁, fine₂, end) = twice_fine del₁ (etcd.delete (key ++ modified)) h in
      let gone : etcd.get key del₂.0 ≡ some none =
        reliable.deletes (key ++ modified) key del₁.0 fine₂
        ∙ rw (apart key) (reliable.deletes key key s fine₁ ∙ rw (same_self key) refl) in
      subst (λ s'. (load etcd key s' ≡ key_not_found) × (exists etcd key s' ≡ false)) (sym end)
        (load_missing etcd key del₂.0 gone)
