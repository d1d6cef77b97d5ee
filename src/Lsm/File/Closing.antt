-- ===== src/Lsm/File/Closing.antt =====
-- How a file of the log is closed (lsm/vfile.go). Closing and removing do not fail here; the length of
-- AutoExpire's wait, which goes through a float, is left out.
use elinproxy.Prelude.{
  ℕ, zero, suc, ◌==◌, ◌+◌, ◌-◌, ◌%◌, ◌^◌, ◌≤◌, ◌<◌, ◌≡◌, Bool, true, false, not, refl, sym, ◌∙◌,
  if◌then◌else◌, ltb, List, [], ◌∷◌, arith,
}

-- `writer` and `reader` tell that the file is open, `on_disk` that it is there, `auto_expire` is the
-- uint64 that counts the calls of AutoExpire, and `waiting` counts the goroutines that wait to close.
pub record Handles : Type 0 where
  pub writer : Bool
  pub reader : Bool
  pub on_disk : Bool
  pub auto_expire : ℕ
  pub waiting : ℕ

-- VFileNew
abbrev pub opened : Handles
opened = record { writer = true; reader = true; on_disk = true; auto_expire = 0; waiting = 0 }

-- CloseWriter
unfoldable pub close_writer : Handles → Handles
close_writer h = record h { writer = false }

-- CloseReader
unfoldable pub close_reader : Handles → Handles
close_reader h = record h { reader = false }

-- Close
unfoldable pub close : Handles → Handles
unfolding close_writer close_reader
close h = record (close_reader (close_writer h)) { on_disk = false }

-- AutoExpire, up to the start of its goroutine
unfoldable pub auto_expire : Handles → Handles
unfolding close_writer
auto_expire h =
    let calls = (h.auto_expire + 1) % 2 ^ 64 in
    let counted = record h { auto_expire = calls } in
    if ltb 1 calls then counted else record (close_writer counted) { waiting = h.waiting + 1 }

-- The end of the wait of one goroutine.
unfoldable pub wake : Handles → Handles
unfolding close
wake h = if ltb 0 h.waiting then close (record h { waiting = h.waiting - 1 }) else h

-- What other goroutines do with a file, in any order. The reader rotates to a new file once the old
-- one has expired or grown too large, by AutoExpire.
pub data Event : Type 0 where
  expire wakes : Event

unfoldable pub run : List Event → Handles → Handles
unfolding auto_expire wake
run [] h = h
run (expire ∷ es) h = run es (auto_expire h)
run (wakes ∷ es) h = run es (wake h)

abbrev pub expirations : List Event → ℕ
expirations [] = 0
expirations (expire ∷ es) = suc (expirations es)
expirations (wakes ∷ es) = expirations es

-- One goroutine waits at most, and a file that still can be read has no goroutine that closed it.
pub record IsOrderly (h : Handles) : Type 0 where
  pub once : h.waiting ≤ 1
  pub readable : h.reader ≡ h.on_disk
  pub fresh : h.auto_expire ≡ 0 → (h.waiting ≡ 0) × (h.writer ≡ true) × (h.reader ≡ true)
  pub expiring : 0 < h.auto_expire → h.writer ≡ false
  pub closing : h.reader ≡ false → h.waiting ≡ 0
  pub waits : 0 < h.auto_expire → h.reader ≡ true → h.waiting ≡ 1

auto_expire-IsOrderly :
    (h : Handles)
    → h.auto_expire + 1 < 2 ^ 64
    → IsOrderly h
    → IsOrderly (auto_expire h) × ((auto_expire h).auto_expire ≡ h.auto_expire + 1)
unfolding auto_expire
auto_expire-IsOrderly h few v = ground arith

wake-IsOrderly :
    (h : Handles) → IsOrderly h → IsOrderly (wake h) × ((wake h).auto_expire ≡ h.auto_expire)
unfolding wake
wake-IsOrderly h v = ground arith

run-IsOrderly :
    (es : List Event) (h : Handles)
    → h.auto_expire + expirations es < 2 ^ 64
    → IsOrderly h
    → IsOrderly (run es h) × ((run es h).auto_expire ≡ h.auto_expire + expirations es)
unfolding run
run-IsOrderly [] h few v = (v, omega arith)
run-IsOrderly (expire ∷ es) h few v =
    let (kept, count) = auto_expire-IsOrderly h (omega arith) v in
    let (after, counts) = run-IsOrderly es (auto_expire h) (omega (arith, count)) kept in
    (after, omega (arith, count, counts))
run-IsOrderly (wakes ∷ es) h few v =
    let (kept, count) = wake-IsOrderly h v in
    let (after, counts) = run-IsOrderly es (wake h) (omega (arith, count)) kept in
    (after, omega (arith, count, counts))

-- The writer is open as long as AutoExpire was not called.
writer-expirations : (h : Handles) (n : ℕ) → IsOrderly h → h.auto_expire ≡ n → h.writer ≡ (n == 0)
writer-expirations h zero v e = (v.fresh e).1
writer-expirations h (suc n) v e =
    let apart : (suc n == 0) ≡ false = ground arith in v.expiring (omega (arith, e)) ∙ sym apart

-- Whether a wait ends after these.
abbrev pub has_wake : List Event → Bool
has_wake [] = false
has_wake (expire ∷ es) = has_wake es
has_wake (wakes ∷ es) = true

-- Whether a wait ends after the first call of AutoExpire.
abbrev pub is_closing : List Event → Bool
is_closing [] = false
is_closing (expire ∷ es) = has_wake es
is_closing (wakes ∷ es) = is_closing es

auto_expire_reader : (h : Handles) → (auto_expire h).reader ≡ h.reader
unfolding auto_expire
auto_expire_reader h = ground arith

wake_idle : (h : Handles) → h.waiting ≡ 0 → (wake h).reader ≡ h.reader
unfolding wake
wake_idle h e = ground arith

wake_closes : (h : Handles) → h.waiting ≡ 1 → (wake h).reader ≡ false
unfolding wake
wake_closes h e = ground arith

-- A reader that is closed is not opened again.
run-closed :
    (es : List Event) (h : Handles)
    → h.auto_expire + expirations es < 2 ^ 64
    → IsOrderly h
    → h.reader ≡ false
    → (run es h).reader ≡ false
unfolding run
run-closed [] h few v e = e
run-closed (expire ∷ es) h few v e =
    let (kept, count) = auto_expire-IsOrderly h (omega arith) v in
    run-closed es (auto_expire h) (omega (arith, count)) kept (auto_expire_reader h ∙ e)
run-closed (wakes ∷ es) h few v e =
    let (kept, count) = wake-IsOrderly h v in
    run-closed es (wake h) (omega (arith, count)) kept (wake_idle h (v.closing e) ∙ e)

run-waiting :
    (es : List Event) (h : Handles)
    → h.auto_expire + expirations es < 2 ^ 64
    → IsOrderly h
    → 0 < h.auto_expire
    → h.reader ≡ true
    → (run es h).reader ≡ not (has_wake es)
unfolding run
run-waiting [] h few v called e = e
run-waiting (expire ∷ es) h few v called e =
    let (kept, count) = auto_expire-IsOrderly h (omega arith) v in
    run-waiting es (auto_expire h) (omega (arith, count)) kept (omega (arith, count))
      (auto_expire_reader h ∙ e)
run-waiting (wakes ∷ es) h few v called e =
    let (kept, count) = wake-IsOrderly h v in
    run-closed es (wake h) (omega (arith, count)) kept (wake_closes h (v.waits called e))

run-fresh :
    (es : List Event) (h : Handles)
    → expirations es < 2 ^ 64
    → IsOrderly h
    → h.auto_expire ≡ 0
    → (run es h).reader ≡ not (is_closing es)
unfolding run
run-fresh [] h few v none_yet = (v.fresh none_yet).2
run-fresh (expire ∷ es) h few v none_yet =
    let (kept, count) = auto_expire-IsOrderly h (omega (arith, none_yet)) v in
    run-waiting es (auto_expire h) (omega (arith, count, none_yet)) kept
      (omega (arith, count, none_yet)) (auto_expire_reader h ∙ (v.fresh none_yet).2)
run-fresh (wakes ∷ es) h few v none_yet =
    let (kept, count) = wake-IsOrderly h v in
    run-fresh es (wake h) (omega arith) kept (count ∙ none_yet)

opened-IsOrderly : IsOrderly opened
opened-IsOrderly = ground arith

-- Whatever the order of AutoExpire's calls, fewer than 2 ^ 64, and of the ends of their waits, one
-- goroutine waits at most, and the file counts the calls. The writer is open exactly as long as there
-- was no call. The reader is open, and the file is there, exactly until a wait ends after the first
-- call; from then on no goroutine waits.
pub run-opened-IsOrderly :
    (es : List Event)
    → expirations es < 2 ^ 64
    → IsOrderly (run es opened)
      × ((run es opened).auto_expire ≡ expirations es)
      × ((run es opened).writer ≡ (expirations es == 0))
      × ((run es opened).reader ≡ not (is_closing es))
run-opened-IsOrderly es few =
    let (v, counts) = run-IsOrderly es opened (omega arith) opened-IsOrderly in
    let count : (run es opened).auto_expire ≡ expirations es = omega (arith, counts) in
    (
      v,
      count,
      writer-expirations (run es opened) (expirations es) v count,
      run-fresh es opened few opened-IsOrderly refl,
    )
