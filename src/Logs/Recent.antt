-- ===== src/Logs/Recent.antt =====
-- The recent records are the last ones since they were cleared.
use hypertube.Common.{
  suc, ◌-◌, ◌≤◌, ◌≡◌, refl, sym, ap, ◌∙◌, Bool, List, [], ◌∷◌, ◌++◌, Text, arith, ltb, length,
  length-append, drop, Bool-cases, inl, inr,
}
use hypertube.Logs.{
  RotationAnswers, LogRecord, Logger, log, clear_recent, drop_oldest, max_recent_logs,
}

drop_oldest-cut :
    (r : LogRecord) (rs : List LogRecord)
    → max_recent_logs ≤ length rs
    → drop_oldest (r ∷ rs) ≡ drop_oldest rs
unfolding drop_oldest
drop_oldest-cut r rs h = ground arith

drop_oldest-small : (rs : List LogRecord) → length rs ≤ max_recent_logs → drop_oldest rs ≡ rs
unfolding drop_oldest
drop_oldest-small [] h = refl
drop_oldest-small (r ∷ rs) h = ground arith

-- The loop drops all but the last records.
drop_oldest-drop : (rs : List LogRecord) → drop_oldest rs ≡ drop (length rs - max_recent_logs) rs
unfolding drop_oldest
drop_oldest-drop [] = let e : 0 ≡ 0 - max_recent_logs = omega arith in ap (λ n. drop n []) e
drop_oldest-drop (r ∷ rs) = elim (Bool-cases (ltb (length rs) max_recent_logs)) [
  | inl small ↦
      let e : 0 ≡ suc (length rs) - max_recent_logs = ground arith in
      drop_oldest-small (r ∷ rs) (ground arith) ∙ ap (λ n. drop n (r ∷ rs)) e
  | inr large ↦
      let e : suc (length rs - max_recent_logs) ≡ suc (length rs) - max_recent_logs =
        ground arith in
      drop_oldest-cut r rs (ground arith) ∙ drop_oldest-drop rs ∙ ap (λ n. drop n (r ∷ rs)) e
]

drop_oldest-append :
    (rs : List LogRecord) (r : LogRecord)
    → drop_oldest (drop_oldest rs ++ (r ∷ [])) ≡ drop_oldest (rs ++ (r ∷ []))
unfolding drop_oldest
drop_oldest-append [] r = refl
drop_oldest-append (x ∷ rs) r = elim (Bool-cases (ltb (length rs) max_recent_logs)) [
  | inl small ↦ ap (λ t. drop_oldest (t ++ (r ∷ []))) (drop_oldest-small (x ∷ rs) (ground arith))
  | inr large ↦
      ap (λ t. drop_oldest (t ++ (r ∷ []))) (drop_oldest-cut x rs (ground arith))
      ∙ drop_oldest-append rs r
      ∙ sym (drop_oldest-cut x (rs ++ (r ∷ [])) (ground (arith, length-append rs (r ∷ []))))
]

pub data LogEvent : Type 0 where
  logged : RotationAnswers → Text → Bool → LogRecord → LogEvent
  cleared : LogEvent

unfoldable pub logger_run : List LogEvent → Logger → Logger
unfolding log clear_recent
logger_run [] s = s
logger_run (logged answers stamp opens r ∷ es) s = logger_run es (log answers stamp opens r s)
logger_run (cleared ∷ es) s = logger_run es (clear_recent s)

-- All records behind the last time that they were cleared.
unfoldable pub since_clear : List LogEvent → List LogRecord → List LogRecord
since_clear [] rs = rs
since_clear (logged answers stamp opens r ∷ es) rs = since_clear es (rs ++ (r ∷ []))
since_clear (cleared ∷ es) rs = since_clear es []

run_recent :
    (es : List LogEvent) (s : Logger) (rs : List LogRecord)
    → s.recent ≡ drop_oldest rs
    → (logger_run es s).recent ≡ drop_oldest (since_clear es rs)
unfolding logger_run since_clear log clear_recent
run_recent [] s rs e = e
run_recent (logged answers stamp opens r ∷ es) s rs e =
    run_recent es (log answers stamp opens r s) (rs ++ (r ∷ []))
      (ap (λ t. drop_oldest (t ++ (r ∷ []))) e ∙ drop_oldest-append rs r)
run_recent (cleared ∷ es) s rs e = run_recent es (clear_recent s) [] refl

-- After any calls of a logger without records, the recent records are the last 1000, at most, of those
-- that were logged since they were last cleared, in their order.
pub logger_run-recent :
    (es : List LogEvent) (s : Logger)
    → s.recent ≡ []
    → (logger_run es s).recent
      ≡ drop (length (since_clear es []) - max_recent_logs) (since_clear es [])
unfolding drop_oldest
logger_run-recent es s e = run_recent es s [] e ∙ drop_oldest-drop (since_clear es [])
