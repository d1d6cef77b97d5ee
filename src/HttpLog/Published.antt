-- ===== src/HttpLog/Published.antt =====
-- The server of httpsrv/httplog/httplog.go, which publishes the lines of the channel, next to the
-- requests that end. What its socket's Send answers is a part of the event.
use elinproxy.Prelude.{
  ◌≤◌, ◌<◌, ◌≡◌, refl, sym, ap, subst, ◌∙◌, Bool, true, false, none, some, List, [], ◌∷◌, ◌++◌,
  if◌then◌else◌, ltb, ltb→lt, length, length-append, arith,
}
use mathlib.Core.List.{Sublist, append_assoc, sublist-append_left, append-nil}
use mathlib.Core.List.Sublist
use elinproxy.HttpLog.{HttpLog, Lines, done, take_line}

-- A request ends, or the server takes a line, which Send publishes or fails to.
pub data Event : Type 0 where
  ends : HttpLog → Event
  serves : Bool → Event

-- The channel and the metrics, and what was published.
abbrev pub State : Type 0
State = Lines × List HttpLog

-- A round of `server`, which waits while the channel is empty.
unfoldable pub server_round : Bool → State → State
unfolding take_line
server_round fine (lines, out) = elim (take_line lines) [
  | none ↦ (lines, out)
  | some (hl, rest) ↦ (rest, if fine then out ++ hl ∷ [] else out)
]

unfoldable pub step : Event → State → State
unfolding server_round done
step (ends hl) (lines, out) = (done hl lines, out)
step (serves fine) s = server_round fine s

unfoldable pub run : List Event → State → State
unfolding step
run [] s = s
run (e ∷ es) s = run es (step e s)

-- The lines of the requests that end.
abbrev pub ended : List Event → List HttpLog
ended [] = []
ended (ends hl ∷ es) = hl ∷ ended es
ended (serves fine ∷ es) = ended es

record IsOrdered (s : State) : Type 0 where
  in_order : Sublist (s.1 ++ s.0.msg_ch) s.0.saved
  bounded : length s.0.msg_ch ≤ 2

Ordered : List HttpLog → List HttpLog → List HttpLog → Type 0
Ordered ch saved out = IsOrdered (record { msg_ch = ch; saved = saved }, out)

-- A line that the channel takes or drops.
added :
    (b : Bool) (hl : HttpLog) (ch saved out : List HttpLog)
    → (b ≡ true → length ch < 2)
    → Ordered ch saved out
    → Ordered (if b then ch ++ hl ∷ [] else ch) (saved ++ hl ∷ []) out
unfolding Ordered
added true hl ch saved out room h = record {
  in_order =
      subst (λ l. Sublist l (saved ++ hl ∷ [])) (append_assoc out ch (hl ∷ []))
        (Sublist.append h.in_order (Sublist.refl (hl ∷ [])));
  bounded = omega (arith, room refl, length-append ch (hl ∷ []));
}
added false hl ch saved out room h = record {
  in_order = Sublist.trans h.in_order (sublist-append_left saved (hl ∷ []));
  bounded = h.bounded;
}

done-IsOrdered : (hl : HttpLog) (s : State) → IsOrdered s → IsOrdered (done hl s.0, s.1)
unfolding done Ordered
done-IsOrdered hl (lines, out) h =
    added (ltb (length lines.msg_ch) 2) hl lines.msg_ch lines.saved out
      (ltb→lt (length lines.msg_ch) 2) h

-- A line that is taken leaves the channel in front.
served :
    (fine : Bool) (ch saved out : List HttpLog)
    → Ordered ch saved out
    → IsOrdered (server_round fine (record { msg_ch = ch; saved = saved }, out))
unfolding server_round take_line Ordered
served fine [] saved out h = h
served true (hl ∷ ch) saved out h = record {
  in_order = subst (λ l. Sublist l saved) (sym (append_assoc out (hl ∷ []) ch)) h.in_order;
  bounded = omega (arith, h.bounded);
}
served false (hl ∷ ch) saved out h = record {
  in_order =
      Sublist.trans (Sublist.append (Sublist.refl out) (Sublist.cons hl (Sublist.refl ch)))
        h.in_order;
  bounded = omega (arith, h.bounded);
}

step-IsOrdered : (e : Event) (s : State) → IsOrdered s → IsOrdered (step e s)
unfolding step Ordered
step-IsOrdered (ends hl) s h = done-IsOrdered hl s h
step-IsOrdered (serves fine) (lines, out) h = served fine lines.msg_ch lines.saved out h

served-saved :
    (fine : Bool) (ch saved out : List HttpLog)
    → (server_round fine (record { msg_ch = ch; saved = saved }, out)).0.saved ≡ saved ++ []
unfolding server_round take_line
served-saved fine [] saved out = sym (append-nil saved)
served-saved fine (hl ∷ ch) saved out = sym (append-nil saved)

step-saved : (e : Event) (s : State) → (step e s).0.saved ≡ s.0.saved ++ ended (e ∷ [])
unfolding step server_round done take_line
step-saved (ends hl) s = refl
step-saved (serves fine) (lines, out) = served-saved fine lines.msg_ch lines.saved out

ended-cons : (e : Event) (es : List Event) → ended (e ∷ []) ++ ended es ≡ ended (e ∷ es)
ended-cons (ends hl) es = refl
ended-cons (serves fine) es = refl

run-IsOrdered :
    (es : List Event) (s : State)
    → IsOrdered s
    → IsOrdered (run es s) × ((run es s).0.saved ≡ s.0.saved ++ ended es)
unfolding run
run-IsOrdered [] s h = (h, sym (append-nil s.0.saved))
run-IsOrdered (e ∷ es) s h =
    let (h', all) = run-IsOrdered es (step e s) (step-IsOrdered e s h) in
    (
      h',
      all
          ∙ ap (λ l. l ++ ended es) (step-saved e s)
          ∙ append_assoc s.0.saved (ended (e ∷ [])) (ended es)
          ∙ ap (◌++◌ s.0.saved) (ended-cons e es),
    )

-- A channel that nothing was put on.
abbrev pub no_lines : State
no_lines = (record { msg_ch = []; saved = [] }, [])

-- However the ends of requests and the server's rounds follow each other from an empty channel: the
-- metrics have every request that ended, in order; the published lines, with those in the channel
-- behind them, are some of these in their order; and the channel holds two lines at most.
pub run-Sublist :
    (es : List Event)
    → let s = run es no_lines in
      (s.0.saved ≡ ended es) × Sublist (s.1 ++ s.0.msg_ch) (ended es) × (length s.0.msg_ch ≤ 2)
run-Sublist es =
    let empty : IsOrdered no_lines = record { in_order = Sublist.refl []; bounded = omega arith } in
    let (h, all) = run-IsOrdered es no_lines empty in
    (
      all,
      subst (Sublist ((run es no_lines).1 ++ (run es no_lines).0.msg_ch)) all h.in_order,
      h.bounded,
    )
