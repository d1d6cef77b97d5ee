-- ===== src/Certs/Storage.antt =====
-- certs/cache.go: certmagic's storage on etcd. The client is a parameter: what a put, a get and a
-- delete make of the state of the cluster, and whether they fail.
pub mod Kept
pub mod Locks
mod Tests
use elinproxy.Prelude.{
  ℕ, Bool, true, false, not, ◌&&◌, Option, none, some, List, [], ◌∷◌, ◌++◌, if◌then◌else◌, length,
}
use elinproxy.Lsm.File.{Bytes}

-- A put and a delete tell whether they succeeded. A get gives `none` on an error, and else the value
-- of the key, if there is one; with a prefix, all values. `size` is the size of the whole entry of a key
-- (KeyValue.Size), which holds its key and revisions too.
pub record Etcd : Type 1 where
  pub State : Type 0
  pub put : Bytes → Bytes → State → State × Bool
  pub get : Bytes → State → Option (Option Bytes)
  pub get_prefix : Bytes → State → Option (List Bytes)
  pub delete : Bytes → State → State × Bool
  pub size : Bytes → State → ℕ

-- "__Modified"
abbrev pub modified : Bytes
modified = 95 ∷ 95 ∷ 77 ∷ 111 ∷ 100 ∷ 105 ∷ 102 ∷ 105 ∷ 101 ∷ 100 ∷ []

-- What a call returns: a result, ErrCacheKeyNotFound, or an error of the client or of Atoi.
pub data Answer (A : Type 0) : Type 0 where
  ok : A → Answer A
  key_not_found failed : Answer A

-- certmagic.KeyInfo
pub record KeyInfo : Type 0 where
  pub key : Bytes
  pub modified : ℕ
  pub is_terminal : Bool
  pub size : ℕ

module _ (etcd : Etcd) where
  -- Store, with strconv.Itoa of the clock; `false` is an error
  unfoldable pub store : (ℕ → Bytes) → ℕ → Bytes → Bytes → etcd.State → etcd.State × Bool
  store itoa now key value s =
      let (s₁, fine) = etcd.put key value s in
      if fine then etcd.put (key ++ modified) (itoa now) s₁ else (s₁, false)

  unfoldable pub load : Bytes → etcd.State → Answer Bytes
  load key s = elim (etcd.get key s) [
    | none ↦ failed
    | some found ↦ elim found [ none ↦ key_not_found | some value ↦ ok value ]
  ]

  unfoldable pub delete : Bytes → etcd.State → etcd.State × Bool
  delete key s =
      let (s₁, fine) = etcd.delete key s in
      if fine then etcd.delete (key ++ modified) s₁ else (s₁, false)

  unfoldable pub exists : Bytes → etcd.State → Bool
  exists key s = elim (etcd.get key s) [
    | none ↦ false
    | some found ↦ elim found [ none ↦ false | some value ↦ true ]
  ]

  -- List collects the values and returns nil; the Boolean is false on an error.
  unfoldable pub list : Bytes → etcd.State → List Bytes × Bool
  list prefix s = elim (etcd.get_prefix prefix s) [ none ↦ ([], false) | some values ↦ ([], true) ]

  -- The end of Stat, with strconv.Atoi
  unfoldable pub stat_modified : (Bytes → Option ℕ) → Bytes → ℕ → etcd.State → Answer KeyInfo
  stat_modified atoi key size s = elim (etcd.get (key ++ modified) s) [
    | none ↦ failed
    | some found ↦ elim found [
      | none ↦ key_not_found
      | some text ↦ elim (atoi text) [
        | none ↦ failed
        | some seconds ↦
            ok (record { key = key; modified = seconds; is_terminal = true; size = size })
      ]
    ]
  ]

  unfoldable pub stat : (Bytes → Option ℕ) → Bytes → etcd.State → Answer KeyInfo
  unfolding stat_modified
  stat atoi key s = elim (etcd.get key s) [
    | none ↦ failed
    | some found ↦ elim found [
      | none ↦ key_not_found
      | some value ↦ stat_modified atoi key (etcd.size key s) s
    ]
  ]
