-- ===== src/Kvsm/Invariant/Tick.antt =====
-- The timer's case of the worker's select.
use elinproxy.Prelude.{
  ℕ, suc, ◌+◌, ◌*◌, ◌/◌, ◌%◌, ◌≡◌, ◌≢◌, refl, ap, ◌∙◌, List, [], ◌∷◌, map, arith, ◌==◌, inl, inr,
  Bool-cases, Option-cases,
}
use elinproxy.Prelude.Assoc.{lookup}
use elinproxy.Kvsm.Entry.{null}
use elinproxy.Kvsm.Store.{Kvsm}
use elinproxy.Kvsm.Worker.{◌>>=◌, second, sweep, visit, visit_all, sort, tick}
use elinproxy.Kvsm.Invariant.Worker.{Sound, Ends}
use elinproxy.Kvsm.Invariant.Pass.{sweep-Passed}

two : (n : ℕ) → n + 2 ≡ suc (suc n)
two n = omega arith

-- What visits to TTL lists come to: the invariant holds, and a list whose TTL is no whole number of
-- seconds is as before.
pub record Visited {V : Type 0} (kv kv' : Kvsm V) : Type 0 where
  pub sound : Sound kv'
  pub fractional : (j : ℕ) → j % second ≢ 0 → lookup j kv'.lists ≡ lookup j kv.lists

not_whole : (j k : ℕ) → j % second ≢ 0 → j ≢ k / second * second
not_whole j k h e = h (omega arith)

module _ {V : Type 0} where
  visit-Visited : (now k : ℕ) (kv : Kvsm V) → Sound kv → Ends (Visited kv) (visit now k kv)
  unfolding visit
  visit-Visited now k kv (queued, w) = elim (Option-cases (lookup (k / second * second) kv.lists)) [
    | inl none_here ↦ (kv, rw (none_here, visit), same)
    | inr (l, found) ↦
        let (kv', r, done) = sweep-Passed queued kv w now (k / second * second) l found l.size in
        elim (Bool-cases (l.size == 0)) [
          | inl empty ↦ (kv, rw (found, visit) (rw empty), same)
          | inr more ↦ (
            kv',
            rw (found, visit)
                (rw more (ap (λ f. sweep f now (k / second * second) null kv) (two l.size) ∙ r)),
            record { sound = done.sound; fractional = λ j h. done.others j (not_whole j k h) },
          )
        ]
  ]
    where
      same : Visited kv kv
      same = record { sound = (queued, w); fractional = λ j h. refl }

  visit_all-Visited :
      (now : ℕ) (ks : List ℕ) (kv : Kvsm V) → Sound kv → Ends (Visited kv) (visit_all now ks kv)
  unfolding visit_all
  visit_all-Visited now [] kv w = (kv, refl, record { sound = w; fractional = λ j h. refl })
  visit_all-Visited now (k ∷ ks) kv w =
      let (kv', r, v) = visit-Visited now k kv w in
      let (kv3, r', v') = visit_all-Visited now ks kv' v.sound in
      (
        kv3,
        ap (λ m. m >>= visit_all now ks) r ∙ r',
        record { sound = v'.sound; fractional = λ j h. v'.fractional j h ∙ v.fractional j h },
      )

  -- From a table that meets the invariant, the timer's case of the worker ends without a panic and
  -- the invariant holds again. A list whose TTL is no whole number of seconds is left as it was, so
  -- its entries stay whether they have expired or not.
  pub tick-Visited : (now : ℕ) (kv : Kvsm V) → Sound kv → Ends (Visited kv) (tick now kv)
  unfolding tick
  tick-Visited now kv w = visit_all-Visited now (sort (map (λ p. p.0) kv.lists)) kv w
