-- ===== src/HttpLog/Tests.antt =====
-- Two requests for one page.
use elinproxy.Prelude.{
  ◌≡◌, ◌≤◌, ◌+◌, ℕ, List, length, if◌then◌else◌, refl, false, true, none, [], ◌∷◌, ◌++◌, inl,
}
use mathlib.Core.List.{Sublist}
use elinproxy.Prelude.Int.{pos}
use elinproxy.Text.{codes}
use elinproxy.HttpLog.{Request, HttpLog, new, get_key_str}
use elinproxy.HttpLog.{write, done, take_line}
use elinproxy.HttpLog.Metrics.{
  Labels, CounterVec, HistogramVec, Metrics, Timed, labels_of, save_all,
}
use elinproxy.HttpLog.Metrics.Counted.{same_labels, save_all-value}
use elinproxy.HttpLog.Published.{
  Event, ends, serves, run, step, server_round, no_lines, run-Sublist,
}
use elinproxy.HttpLog.Key.{get_key_str-inj, get_key_str_collides}

abbrev request : Request
request = record {
  method = codes "GET";
  scheme = [];
  host = codes "a.test";
  path = codes "/x";
  raw_query = [];
  tls = false;
  user = none;
  user_agent = [];
  cookies = [];
  headers = [];
  proto = codes "HTTP/1.1";
  proto_major = 1;
  content_length = pos 0;
  remote_addr = [];
}

abbrev line : HttpLog
line = new (λ h. none) (λ a. 3) request

-- The same request, which carried another cookie.
abbrev other_line : HttpLog
other_line = new (λ h. none) (λ a. 3) (record request { cookies = codes "a=b" ∷ [] })

get_key_str-inj_example :
    (line.device ≡ other_line.device)
    × (line.method ≡ other_line.method)
    × (line.url ≡ other_line.url)
unfolding new get_key_str
get_key_str-inj_example = get_key_str-inj line other_line (inl refl) (inl refl) refl

get_key_str_collides_example :
    get_key_str (new (λ h. none) (λ a. 3) (record request { path = codes "/x?q"; raw_query = [] }))
    ≡ get_key_str (new (λ h. none) (λ a. 3) (record request { raw_query = codes "q" }))
get_key_str_collides_example = get_key_str_collides (λ h. none) (λ a. 3) request b'q' []

-- Counters as a function of the labels.
abbrev counters : CounterVec
counters = record {
  State = Labels → ℕ;
  add = λ l n s j. s j + (if same_labels l j then n else 0);
  value = λ j s. s j;
}

-- Histograms that forget what they are given.
abbrev histograms : HistogramVec
histograms = record { State = Unit; Float = ℕ; observe = λ l x s. s }

abbrev no_metrics : Metrics counters histograms
no_metrics = record {
  response_ttfb = tt;
  response_time = tt;
  response_code = λ l. 0;
  response_size = λ l. 0;
}

abbrev two_lines : List (Timed counters histograms)
two_lines = (line, 1, 2) ∷ (write 5 7 other_line, 3, 4) ∷ []

save_all-value_example :
    let m = save_all counters histograms two_lines no_metrics in
    (counters.value (labels_of line) m.response_code ≡ 2)
    × (counters.value (labels_of line) m.response_size ≡ 7)
unfolding new write
save_all-value_example =
    save_all-value counters histograms (λ l j n s. refl) two_lines no_metrics line

-- Three requests end before the server takes a line.
abbrev busy : List Event
busy = ends line ∷ ends other_line ∷ ends line ∷ serves true ∷ []

run-Sublist_example :
    let s = run busy no_lines in
    (s.0.saved ≡ line ∷ other_line ∷ line ∷ [])
    × Sublist (s.1 ++ s.0.msg_ch) (line ∷ other_line ∷ line ∷ [])
    × (length s.0.msg_ch ≤ 2)
run-Sublist_example = run-Sublist busy

-- The third line was dropped.
busy_out : (run busy no_lines).1 ++ (run busy no_lines).0.msg_ch ≡ line ∷ other_line ∷ []
unfolding run step server_round done take_line
busy_out = refl
