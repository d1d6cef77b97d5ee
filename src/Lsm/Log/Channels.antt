-- ===== src/Lsm/Log/Channels.antt =====
-- `Set` of lsm/vlog.go: the channel that an item waits on for its TTL. The seconds of a TTL are a float
-- in the code, whose whole part is exact below 2^24 seconds. A call is one step: two first calls at
-- once for TTLs that differ by less than a second could both make a channel.
use elinproxy.Prelude.{
  ℕ, ◌/◌, ◌≡◌, refl, sym, ap, ◌∙◌, Option, none, some, List, [], ◌∷◌, ◌++◌, if◌then◌else◌, ◌==◌,
  Option-cases, inl, inr, ==_self, ==_iff, Bool-cases, false,
}
use elinproxy.Prelude.Assoc.{lookup, insert, lookup-insert}
use elinproxy.Kvsm.Entry.{Ptr}
use elinproxy.Kvsm.Worker.{second}

-- The channel of a reader, which takes its TTL from the first item.
pub record Channel : Type 0 where
  pub ttl : ℕ
  pub waiting : List Ptr

-- VLog: `ttlCh`, by whole seconds
abbrev pub Channels : Type 0
Channels = List (ℕ × Channel)

unfoldable pub channel_for : ℕ → Option Channel → Channel
channel_for ttl none = record { ttl = ttl; waiting = [] }
channel_for ttl (some ch) = ch

-- Set; a send to a full channel waits behind its buffer.
unfoldable pub set : Ptr → ℕ → Channels → Channels
unfolding channel_for
set itm ttl chs =
    let s = ttl / second in
    let ch = channel_for ttl (lookup s chs) in
    insert s (record ch { waiting = ch.waiting ++ itm ∷ [] }) chs

-- Each channel is found under the whole seconds of its own TTL.
abbrev pub BySeconds : Channels → Type 0
BySeconds chs = (s : ℕ) (ch : Channel) → lookup s chs ≡ some ch → ch.ttl / second ≡ s

-- What Set comes to: the item waits last on a channel whose TTL has as many whole seconds as its own.
-- That is the channel that was there, with all that waited on it and its TTL, or else a new one. Every
-- other channel is as before.
pub record Queued (itm : Ptr) (ttl : ℕ) (chs chs' : Channels) (ch : Channel) : Type 0 where
  pub there : lookup (ttl / second) chs' ≡ some ch
  pub last : ch ≡ elim (lookup (ttl / second) chs) [
    | none ↦ record { ttl = ttl; waiting = itm ∷ [] }
    | some old ↦ record { ttl = old.ttl; waiting = old.waiting ++ itm ∷ [] }
  ]
  pub same_seconds : ch.ttl / second ≡ ttl / second
  pub others : (s : ℕ) → (ttl / second == s) ≡ false → lookup s chs' ≡ lookup s chs

channel_for_seconds :
    (ttl : ℕ) (chs : Channels)
    → BySeconds chs
    → (channel_for ttl (lookup (ttl / second) chs)).ttl / second ≡ ttl / second
unfolding channel_for
channel_for_seconds ttl chs sorted = elim (Option-cases (lookup (ttl / second) chs)) [
  | inl e ↦ rw e refl
  | inr (ch, e) ↦ rw e (sorted (ttl / second) ch e)
]

abbrev sent : Ptr → ℕ → Channels → Channel
sent itm ttl chs =
    let ch = channel_for ttl (lookup (ttl / second) chs) in
    record ch { waiting = ch.waiting ++ itm ∷ [] }

sent_lem :
    (itm : Ptr) (ttl : ℕ) (chs : Channels)
    → sent itm ttl chs ≡ elim (lookup (ttl / second) chs) [
      | none ↦ record { ttl = ttl; waiting = itm ∷ [] }
      | some old ↦ record { ttl = old.ttl; waiting = old.waiting ++ itm ∷ [] }
    ]
unfolding channel_for
sent_lem itm ttl chs = elim (Option-cases (lookup (ttl / second) chs)) [
  | inl e ↦ rw e refl
  | inr (ch, e) ↦ rw e refl
]

lookup-set :
    (itm : Ptr) (ttl : ℕ) (chs : Channels) (s : ℕ)
    → lookup s (set itm ttl chs)
      ≡ (if ttl / second == s then some (sent itm ttl chs) else lookup s chs)
unfolding set
lookup-set itm ttl chs s = lookup-insert (ttl / second) s (sent itm ttl chs) chs

set-BySeconds : (itm : Ptr) (ttl : ℕ) (chs : Channels) → BySeconds chs → BySeconds (set itm ttl chs)
set-BySeconds itm ttl chs sorted s ch found = elim (Bool-cases (ttl / second == s)) [
  | inl same ↦
      let mine : some (sent itm ttl chs) ≡ some ch =
        sym (
          lookup-set itm ttl chs s
          ∙ ap (λ b. if b then some (sent itm ttl chs) else lookup s chs) same)
        ∙ found in
      let is : sent itm ttl chs ≡ ch = cc in
      sym (ap (λ (x : Channel). x.ttl / second) is)
      ∙ channel_for_seconds ttl chs sorted
      ∙ (==_iff (ttl / second) s).0 same
  | inr other ↦ sorted s ch (
      sym (
        lookup-set itm ttl chs s
        ∙ ap (λ b. if b then some (sent itm ttl chs) else lookup s chs) other)
      ∙ found)
]

-- Where each channel is found under the whole seconds of its TTL, Set puts the item last on the channel
-- that is found under the whole seconds of its own, behind all that waited there, and leaves the TTL of
-- that channel; where there is none it makes one with the TTL of the item. It leaves the other channels,
-- and each is again found under the whole seconds of its TTL.
pub set-Queued :
    (itm : Ptr) (ttl : ℕ) (chs : Channels)
    → BySeconds chs
    → (ch : Channel) × Queued itm ttl chs (set itm ttl chs) ch × BySeconds (set itm ttl chs)
set-Queued itm ttl chs sorted = (
  sent itm ttl chs,
  record {
    there =
        lookup-set itm ttl chs (ttl / second)
        ∙ ap (λ b. if b then some (sent itm ttl chs) else lookup (ttl / second) chs)
            (==_self (ttl / second));
    last = sent_lem itm ttl chs;
    same_seconds = channel_for_seconds ttl chs sorted;
    others = λ s other.
        lookup-set itm ttl chs s
        ∙ ap (λ b. if b then some (sent itm ttl chs) else lookup s chs) other;
  },
  set-BySeconds itm ttl chs sorted,
)
