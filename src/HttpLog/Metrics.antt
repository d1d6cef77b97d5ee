-- ===== src/HttpLog/Metrics.antt =====
-- httpsrv/httplog/metrics.go: the counters that a request's log line adds to. The vectors of counters
-- and histograms are the client library's, and parameters; a duration in milliseconds is a float.
pub mod Counted
use elinproxy.Prelude.{ℕ, Bool, true, false, Option, none, some, List, [], ◌∷◌}
use elinproxy.Prelude.Int.{pos}
use elinproxy.Text.{Bytes, codes}
use elinproxy.Text.Decimal.{itoa}
use elinproxy.HttpLog.{HttpLog}

-- prometheus.Labels: the values with their names
abbrev pub Labels : Type 0
Labels = List (Bytes × Bytes)

-- A vector of counters, one for each value of the labels.
pub record CounterVec : Type 1 where
  pub State : Type 0
  pub add : Labels → ℕ → State → State
  pub value : Labels → State → ℕ

pub record HistogramVec : Type 1 where
  pub State : Type 0
  pub Float : Type 0
  pub observe : Labels → Float → State → State

-- strconv.FormatBool
abbrev pub format_bool : Bool → Bytes
format_bool true = codes "true"
format_bool false = codes "false"

unfoldable pub labels_of : HttpLog → Labels
labels_of l =
    (codes "ratelimit", format_bool l.rate_limit)
    ∷ (codes "hit", format_bool l.hit)
    ∷ (codes "code", itoa (pos l.status_code))
    ∷ (codes "method", l.method)
    ∷ (codes "schema", l.schema)
    ∷ []

module _ (counters : CounterVec) (histograms : HistogramVec) where
  pub record Metrics : Type 0 where
    pub response_ttfb : histograms.State
    pub response_time : histograms.State
    pub response_code : counters.State
    pub response_size : counters.State

  -- A log line with its RespTTFMS and its RespTimeMS.
  abbrev pub Timed : Type 0
  Timed = HttpLog × histograms.Float × histograms.Float

  unfoldable pub save : Timed → Metrics → Metrics
  unfolding labels_of
  save (l, ttf_ms, time_ms) m =
      let label = labels_of l in
      record {
        response_code = counters.add label 1 m.response_code;
        response_size = counters.add label l.resp_bytes m.response_size;
        response_ttfb = histograms.observe label ttf_ms m.response_ttfb;
        response_time = histograms.observe label time_ms m.response_time;
      }

  -- The calls of save that the ends of requests make.
  unfoldable pub save_all : List Timed → Metrics → Metrics
  unfolding save
  save_all [] m = m
  save_all (l ∷ ls) m = save_all ls (save l m)
