-- ===== src/HttpLog/Metrics/Counted.antt =====
-- What the counters of httpsrv/httplog/metrics.go come to.
use elinproxy.Prelude.{
  ℕ, ◌+◌, ◌≡◌, refl, sym, ap, ◌∙◌, Bool, true, false, ◌&&◌, List, [], ◌∷◌, if◌then◌else◌, ◌==◌,
  ==_self, ==_ne, Bool-cases, inl, inr, arith,
}
use elinproxy.Prelude.Int.{pos}
use elinproxy.Text.{same, same_eq, same_self}
use elinproxy.Text.Decimal.{itoa, format, format-inj}
use elinproxy.HttpLog.{HttpLog}
use elinproxy.HttpLog.Metrics.{
  Labels, CounterVec, HistogramVec, format_bool, labels_of, Metrics, Timed, save, save_all,
}

abbrev pub same_labels : Labels → Labels → Bool
same_labels [] [] = true
same_labels [] (y ∷ ys) = false
same_labels (x ∷ xs) [] = false
same_labels ((k, v) ∷ xs) ((j, w) ∷ ys) = (same k j && same v w) && same_labels xs ys

-- Add counts under its labels, and nowhere else.
abbrev pub IsCounting : CounterVec → Type 0
IsCounting vec =
    (l j : Labels) (n : ℕ) (s : vec.State)
    → vec.value j (vec.add l n s) ≡ vec.value j s + (if same_labels l j then n else 0)

abbrev pub same_flag : Bool → Bool → Bool
same_flag true b = b
same_flag false true = false
same_flag false false = true

-- Two requests that are counted together: as limited and hit as each other, with one status, method
-- and schema.
abbrev pub alike : HttpLog → HttpLog → Bool
alike x y =
    same_flag x.rate_limit y.rate_limit
    && (same_flag x.hit y.hit
        && (x.status_code == y.status_code && (same x.method y.method && same x.schema y.schema)))

-- The sum of a measure over the lines that are like `hl`.
abbrev pub total_alike {ℓ} : {A : Type ℓ} → (A → HttpLog) → (HttpLog → ℕ) → HttpLog → List A → ℕ
total_alike log f hl [] = 0
total_alike log f hl (x ∷ xs) =
    (if alike (log x) hl then f (log x) else 0) + total_alike log f hl xs

same-format_bool : (a b : Bool) → same (format_bool a) (format_bool b) ≡ same_flag a b
same-format_bool true true = refl
same-format_bool true false = refl
same-format_bool false true = refl
same-format_bool false false = refl

same-itoa : (a b : ℕ) → same (itoa (pos a)) (itoa (pos b)) ≡ (a == b)
unfolding itoa
same-itoa a b = elim (Bool-cases (same (format a) (format b))) [
  | inl t ↦ let e = format-inj a b (same_eq (format a) (format b) t) in t ∙ sym (rw e (==_self b))
  | inr f ↦
      f
      ∙ sym (
          ==_ne a b
            (λ e. let w : same (format a) (format b) ≡ true = rw e (same_self (format b)) in cc))
]

all_alike :
    (a b c d e : Bool) → (a && (b && (c && (d && (e && true))))) ≡ (a && (b && (c && (d && e))))
all_alike a b c d true = refl
all_alike a b c d false = refl

same_labels-labels_of : (x y : HttpLog) → same_labels (labels_of x) (labels_of y) ≡ alike x y
unfolding labels_of
same_labels-labels_of x y =
    (λ i.
      same-format_bool x.rate_limit y.rate_limit i
      && (same-format_bool x.hit y.hit i
          && (same-itoa x.status_code y.status_code i
              && (same x.method y.method && (same x.schema y.schema && true)))))
    ∙ all_alike (same_flag x.rate_limit y.rate_limit) (same_flag x.hit y.hit)
        (x.status_code == y.status_code) (same x.method y.method) (same x.schema y.schema)

module _ (counters : CounterVec) (histograms : HistogramVec) (counting : IsCounting counters) where
  -- Where the counters of the library count, after any requests the counter of responses under the
  -- labels of a request has grown by the number of those that it is alike, and the counter of sizes by
  -- the bytes of their responses.
  pub save_all-value :
      (ls : List (Timed counters histograms)) (m : Metrics counters histograms) (hl : HttpLog)
      → let m' = save_all counters histograms ls m in
        (counters.value (labels_of hl) m'.response_code
          ≡ counters.value (labels_of hl) m.response_code + total_alike (λ x. x.0) (λ x. 1) hl ls)
        × (counters.value (labels_of hl) m'.response_size
            ≡ counters.value (labels_of hl) m.response_size
              + total_alike (λ x. x.0) (λ x. x.resp_bytes) hl ls)
  unfolding save_all save
  save_all-value [] m hl = (omega arith, omega arith)
  save_all-value ((l, ttf, time) ∷ ls) m hl =
      let m₁ = save counters histograms (l, ttf, time) m in
      let (codes_counted, sizes_counted) = save_all-value ls m₁ hl in
      let at = same_labels-labels_of l hl in
      let first = counting (labels_of l) (labels_of hl) 1 m.response_code in
      let size = counting (labels_of l) (labels_of hl) l.resp_bytes m.response_size in
      (
        omega (arith, codes_counted, first, ap {B = ℕ} (λ b. if b then 1 else 0) at),
        omega (arith, sizes_counted, size, ap {B = ℕ} (λ b. if b then l.resp_bytes else 0) at),
      )
