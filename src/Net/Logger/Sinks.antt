-- ===== src/Net/Logger/Sinks.antt =====
-- The logger that a wrapped logger of observer/src/common/logger.ts writes to.
use demo_app.Base.{
  String, ◌==◌, eq_iff, ℕ, List, [], ◌∷◌, ◌≡◌, sym, ap, ◌∙◌, Option, none, some, Bool-cases,
  Option-cases, inl, inr, arith,
}
use demo_app.Base.JsMap
use demo_app.Base.JsMap.{JsMap}
use demo_app.Net.Logger.{
  LogLevel, WrappedLogger, Loggers, wrap_logger, init, obtain, create_logger, level_each,
  set_log_level, create_again, create_each_again, set_logger_factory, Event, created, leveled,
  factory_set, step, run,
}

-- The logger behind a wrapped one.
abbrev pub sink : Option WrappedLogger → Option ℕ
sink none = none
sink (some w) = some w.logger

obtain-logger :
    (m : String) (l : Option LogLevel) (s : Loggers) (n : ℕ)
    → sink (JsMap.get m s.loggers) ≡ some n
    → (init s.default_level (obtain m l s)).logger ≡ n
unfolding init obtain wrap_logger
obtain-logger m l s n h = elim (Option-cases (JsMap.get m s.loggers)) [
  | inl e ↦ ground (arith, sym (ap sink e) ∙ h)
  | inr (w, e) ↦ rw (obtain, e) (ground (arith, sym (ap sink e) ∙ h))
]

create_logger-sink :
    (m : String) (l : Option LogLevel) (k : String) (n : ℕ) (s : Loggers)
    → sink (JsMap.get k s.loggers) ≡ some n
    → sink (JsMap.get k (create_logger m l s).loggers) ≡ some n
unfolding create_logger
create_logger-sink m l k n s h =
    rw (JsMap.get-set m k (init s.default_level (obtain m l s)) s.loggers)
      (elim (Bool-cases (m == k)) [
        | inl hit ↦ rw hit (ap some (obtain-logger m l s n (rw ((eq_iff m k).0 hit) h)))
        | inr miss ↦ rw miss h
      ])

level_each-sink :
    (ms : List String) (l : LogLevel) (k : String) (n : ℕ) (s : Loggers)
    → sink (JsMap.get k s.loggers) ≡ some n
    → sink (JsMap.get k (level_each ms l s).loggers) ≡ some n
unfolding level_each
level_each-sink [] l k n s h = h
level_each-sink (m ∷ ms) l k n s h =
    level_each-sink ms l k n (create_logger m (some l) s) (create_logger-sink m (some l) k n s h)

create_again-sink :
    (m k : String) (n : ℕ) (s : Loggers)
    → sink (JsMap.get k s.loggers) ≡ some n
    → sink (JsMap.get k (create_again m s).loggers) ≡ some n
unfolding create_again
create_again-sink m k n s h = elim (Option-cases (JsMap.get m s.loggers)) [
  | inl e ↦ rw (create_again, e) h
  | inr (w, e) ↦ rw (create_again, e) (create_logger-sink m w.level k n s h)
]

create_each_again-sink :
    (ms : List String) (k : String) (n : ℕ) (s : Loggers)
    → sink (JsMap.get k s.loggers) ≡ some n
    → sink (JsMap.get k (create_each_again ms s).loggers) ≡ some n
unfolding create_each_again
create_each_again-sink [] k n s h = h
create_each_again-sink (m ∷ ms) k n s h =
    create_each_again-sink ms k n (create_again m s) (create_again-sink m k n s h)

step-sink :
    (e : Event) (k : String) (n : ℕ) (s : Loggers)
    → sink (JsMap.get k s.loggers) ≡ some n
    → sink (JsMap.get k (step e s).loggers) ≡ some n
unfolding step set_log_level set_logger_factory
step-sink (created m l) k n s h = create_logger-sink m l k n s h
step-sink (leveled l) k n s h =
    level_each-sink (JsMap.keys s.loggers) l k n (record s { default_level = l }) h
step-sink (factory_set f) k n s h =
    create_each_again-sink (JsMap.keys s.loggers) k n (record s { actual_logger_factory = f }) h

-- A logger that has been created writes to the logger it was created with, whatever calls follow,
-- those of `setLoggerFactory` included.
pub sink-run :
    (es : List Event) (k : String) (n : ℕ) (s : Loggers)
    → sink (JsMap.get k s.loggers) ≡ some n
    → sink (JsMap.get k (run es s).loggers) ≡ some n
unfolding run
sink-run [] k n s h = h
sink-run (e ∷ es) k n s h = sink-run es k n (step e s) (step-sink e k n s h)
