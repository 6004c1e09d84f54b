-- ===== src/Webapp/Logger/Levels.antt =====
-- Which lines the loggers of webapp/src/utils/logger.tsx print.
use demo_app.Base.{
  String, ◌==◌, List, [], ◌∷◌, ◌≡◌, refl, ap, ◌∙◌, Option, none, some, Bool-cases, Option-cases,
  inl, inr, arith,
}
use demo_app.Base.JsMap
use demo_app.Base.JsMap.{JsMap, Entry}
use demo_app.Net.Logger.{LogLevel, info, Method, is_on, or_default, includes}
use demo_app.Net.Logger.Levels.{meant, set_level as set_at, relevel}
use demo_app.Webapp.Logger.{
  WrappedLogger, Loggers, initial, wrap_logger, init, obtain, create_logger, level_each,
  set_log_level, prints, Event, created, leveled, step, run,
}

-- The level of each logger, after events.
abbrev pub replay : List Event → LogLevel → (String → Option LogLevel) → String → Option LogLevel
replay [] d f = f
replay (created m l ∷ es) d f = replay es d (set_at m (or_default l d) f)
replay (leveled l ∷ es) d f = replay es l (λ k. relevel l (f k))

abbrev exact : Option LogLevel → Option WrappedLogger
exact none = none
exact (some l) = some (init (wrap_logger l))

abbrev Shows : LogLevel → (String → Option LogLevel) → Loggers → Type 0
Shows d f s = (s.default_level ≡ d) × ((k : String) → JsMap.get k s.loggers ≡ exact (f k))

init-obtain :
    (m : String) (l : Option LogLevel) (s : Loggers)
    → some (init (obtain m l s)) ≡ exact (some (or_default l s.default_level))
unfolding init obtain wrap_logger
init-obtain m l s = elim (Option-cases (JsMap.get m s.loggers)) [
  | inl e ↦ rw (obtain, e) refl
  | inr (w, e) ↦ rw (obtain, e) refl
]

create_logger-Shows :
    (d : LogLevel) (f : String → Option LogLevel) (m : String) (l : Option LogLevel) (s : Loggers)
    → Shows d f s
    → Shows d (set_at m (or_default l d) f) (create_logger m l s)
unfolding create_logger
create_logger-Shows d f m l s h = (
  h.0,
  λ k. rw (JsMap.get-set m k (init (obtain m l s)) s.loggers) (elim (Bool-cases (m == k)) [
    | inl hit ↦ rw hit (init-obtain m l s ∙ ap (λ x. exact (some (or_default l x))) h.0)
    | inr miss ↦ rw miss (h.1 k)
  ]),
)

abbrev again : LogLevel → Option WrappedLogger → Option WrappedLogger
again l none = none
again l (some w) = some (init (wrap_logger l))

find-level_each :
    (l : LogLevel) (k : String) (es : List (Entry WrappedLogger))
    → JsMap.find k (level_each l es) ≡ again l (JsMap.find k es)
unfolding level_each JsMap.find init wrap_logger
find-level_each l k [] = refl
find-level_each l k (e ∷ es) = elim (Bool-cases (e.key == k)) [
  | inl hit ↦ rw (JsMap.find, hit) refl
  | inr miss ↦ rw (JsMap.find, miss) (find-level_each l k es)
]

again-exact : (l : LogLevel) (x : Option LogLevel) → again l (exact x) ≡ exact (relevel l x)
again-exact l none = refl
again-exact l (some y) = refl

set_log_level-Shows :
    (l d : LogLevel) (f : String → Option LogLevel) (s : Loggers)
    → Shows d f s
    → Shows l (λ k. relevel l (f k)) (set_log_level l s)
unfolding set_log_level JsMap.get
set_log_level-Shows l d f s h =
    (refl, λ k. find-level_each l k s.loggers.entries ∙ ap (again l) (h.1 k) ∙ again-exact l (f k))

run-Shows :
    (es : List Event) (d : LogLevel) (f : String → Option LogLevel) (s : Loggers)
    → Shows d f s
    → (k : String) → JsMap.get k (run es s).loggers ≡ exact (replay es d f k)
unfolding run step
run-Shows [] d f s h = h.1
run-Shows (created m l ∷ es) d f s h =
    run-Shows es d (set_at m (or_default l d) f) (create_logger m l s)
      (create_logger-Shows d f m l s h)
run-Shows (leveled l ∷ es) d f s h =
    run-Shows es l (λ k. relevel l (f k)) (set_log_level l s) (set_log_level-Shows l d f s h)

prints-exact : (m : Method) (x : Option LogLevel) → prints m (exact x) ≡ meant m x
unfolding prints is_on init wrap_logger includes
prints-exact m none = refl
prints-exact m (some l) = ground arith

-- After any calls of `createLogger` and `setLogLevel`, a method of a logger prints exactly when the
-- logger has been created and its level, which is the one last given to it or else the default level
-- of the time, is the method's or a less severe one.
pub prints-run_console :
    (es : List Event) (k : String) (m : Method)
    → prints m (JsMap.get k (run es initial).loggers) ≡ meant m (replay es info (λ j. none) k)
unfolding initial JsMap.get JsMap.find
prints-run_console es k m =
    ap (prints m) (run-Shows es info (λ j. none) initial (refl, λ j. refl) k)
    ∙ prints-exact m (replay es info (λ j. none) k)
