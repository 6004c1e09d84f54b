-- ===== src/Net/Logger/Levels.antt =====
-- Which lines the loggers of observer/src/common/logger.ts print, and where to.
use demo_app.Base.{
  String, ◌==◌, eq_iff, ℕ, List, [], ◌∷◌, ◌≡◌, refl, sym, ap, ◌∙◌, Bool, false, ◌||◌, Option, none,
  some, is_some, if◌then◌else◌, leb, Bool-cases, Option-cases, inl, inr, arith,
}
use demo_app.Base.JsMap
use demo_app.Base.JsMap.{JsMap, Entry}
use demo_app.Net.Logger.{
  LogLevel, trace, debug, info, warn, error, rank, Flags, WrappedLogger, Loggers, initial,
  or_default, wrap_logger, flags_for, init, obtain, create_logger, level_each, set_log_level,
  create_again, includes, create_each_again, log, set_logger_factory, Method, tracing, debugging,
  informing, warning, failing, is_on, Event, created, leveled, factory_set, step, run,
}

-- The level of a method's lines.
abbrev pub severity : Method → LogLevel
severity tracing = trace
severity debugging = debug
severity informing = info
severity warning = warn
severity failing = error

-- A logger of the level prints the lines of the level or a more severe one.
pub is_on-flags_for :
    (m : Method) (l : LogLevel) → is_on m (flags_for l) ≡ leb (rank l) (rank (severity m))
unfolding is_on flags_for includes
is_on-flags_for m l = ground arith

-- What the map has of a logger.
abbrev shown : Option WrappedLogger → Option (Option LogLevel × Flags)
shown none = none
shown (some w) = some (w.level, w.flags)

abbrev exact : Option LogLevel → Option (Option LogLevel × Flags)
exact none = none
exact (some l) = some (some l, flags_for l)

-- The default level is `d`, and the loggers have the levels that `f` says, with the flags of those.
abbrev Shows : LogLevel → (String → Option LogLevel) → Loggers → Type 0
Shows d f s = (s.default_level ≡ d) × ((k : String) → shown (JsMap.get k s.loggers) ≡ exact (f k))

abbrev pub set_level : String → LogLevel → (String → Option LogLevel) → String → Option LogLevel
set_level m l f k = if m == k then some l else f k

abbrev pub relevel : LogLevel → Option LogLevel → Option LogLevel
relevel l none = none
relevel l (some x) = some l

-- The default level and the level of each logger, after events.
abbrev pub replay : List Event → LogLevel → (String → Option LogLevel) → String → Option LogLevel
replay [] d f = f
replay (created m l ∷ es) d f = replay es d (set_level m (or_default l d) f)
replay (leveled l ∷ es) d f = replay es l (λ k. relevel l (f k))
replay (factory_set n ∷ es) d f = replay es d f

shown-obtain :
    (m : String) (l : Option LogLevel) (s : Loggers)
    → shown (some (init s.default_level (obtain m l s)))
      ≡ exact (some (or_default l s.default_level))
unfolding init obtain wrap_logger
shown-obtain m l s = elim (Option-cases (JsMap.get m s.loggers)) [
  | inl e ↦ rw (obtain, e) refl
  | inr (w, e) ↦ rw (obtain, e) refl
]

create_logger-Shows :
    (d : LogLevel) (f : String → Option LogLevel) (m : String) (l : Option LogLevel) (s : Loggers)
    → Shows d f s
    → Shows d (set_level m (or_default l d) f) (create_logger m l s)
unfolding create_logger
create_logger-Shows d f m l s h = (
  h.0,
  λ k.
      rw (JsMap.get-set m k (init s.default_level (obtain m l s)) s.loggers)
        (elim (Bool-cases (m == k)) [
          | inl hit ↦ rw hit (shown-obtain m l s ∙ ap (λ x. exact (some (or_default l x))) h.0)
          | inr miss ↦ rw miss (h.1 k)
        ]),
)

-- Membership among the keys.
abbrev listed : String → List String → Bool
listed k [] = false
listed k (x ∷ xs) = x == k || listed k xs

abbrev level_listed : List String → LogLevel → (String → Option LogLevel) → String → Option LogLevel
level_listed ms l f k = if listed k ms then some l else f k

level_each-Shows :
    (ms : List String) (l d : LogLevel) (f : String → Option LogLevel) (s : Loggers)
    → Shows d f s
    → Shows d (level_listed ms l f) (level_each ms l s)
unfolding level_each
level_each-Shows [] l d f s h = h
level_each-Shows (m ∷ ms) l d f s h =
    let rest =
      level_each-Shows ms l d (set_level m l f) (create_logger m (some l) s)
        (create_logger-Shows d f m (some l) s h) in
    (rest.0, λ k. rest.1 k ∙ ap exact (ground arith))

listed-keys :
    (k : String) (es : List (Entry WrappedLogger))
    → listed k (JsMap.keys (record { entries = es; next = 0 })) ≡ is_some (JsMap.find k es)
unfolding JsMap.find
listed-keys k [] = refl
listed-keys k (e ∷ es) = ground (arith, listed-keys k es)

if-relevel :
    (b : Bool) (o : Option WrappedLogger) (x : Option LogLevel) (l : LogLevel)
    → b ≡ is_some o
    → shown o ≡ exact x
    → (if b then some l else x) ≡ relevel l x
if-relevel b none none l hit same = ground arith
if-relevel b none (some y) l hit same = ground arith
if-relevel b (some w) none l hit same = ground arith
if-relevel b (some w) (some y) l hit same = ground arith

level-shown :
    (w : WrappedLogger) (x : Option LogLevel) (d : LogLevel)
    → shown (some w) ≡ exact x
    → some (or_default w.level d) ≡ x
level-shown w none d same = ground arith
level-shown w (some l) d same = ground arith

set_log_level-Shows :
    (l d : LogLevel) (f : String → Option LogLevel) (s : Loggers)
    → Shows d f s
    → Shows l (λ k. relevel l (f k)) (set_log_level l s)
unfolding set_log_level JsMap.get
set_log_level-Shows l d f s h =
    let all =
      level_each-Shows (JsMap.keys s.loggers) l l f (record s { default_level = l }) (refl, h.1) in
    (
      all.0,
      λ k.
          all.1 k
          ∙ ap exact (
              if-relevel (listed k (JsMap.keys s.loggers)) (JsMap.get k s.loggers) (f k) l
                (listed-keys k s.loggers.entries) (h.1 k)),
    )

set_level-same :
    (m k : String) {l : LogLevel} (f : String → Option LogLevel)
    → some l ≡ f m
    → set_level m l f k ≡ f k
set_level-same m k f same = elim (Bool-cases (m == k)) [
  | inl hit ↦ rw hit (rw (sym ((eq_iff m k).0 hit)) same)
  | inr miss ↦ rw miss refl
]

create_again-Shows :
    (d : LogLevel) (f : String → Option LogLevel) (m : String) (s : Loggers)
    → Shows d f s
    → Shows d f (create_again m s)
unfolding create_again
create_again-Shows d f m s h = elim (Option-cases (JsMap.get m s.loggers)) [
  | inl e ↦ rw (create_again, e) h
  | inr (w, e) ↦
      let new = create_logger-Shows d f m w.level s h in
      let level = level-shown w (f m) d (sym (ap shown e) ∙ h.1 m) in
      rw (create_again, e) (new.0, λ k. new.1 k ∙ ap exact (set_level-same m k f level))
]

create_each_again-Shows :
    (d : LogLevel) (f : String → Option LogLevel) (ms : List String) (s : Loggers)
    → Shows d f s
    → Shows d f (create_each_again ms s)
unfolding create_each_again
create_each_again-Shows d f [] s h = h
create_each_again-Shows d f (m ∷ ms) s h =
    create_each_again-Shows d f ms (create_again m s) (create_again-Shows d f m s h)

step-Shows :
    (e : Event) (es : List Event) (d : LogLevel) (f : String → Option LogLevel) (s : Loggers)
    → Shows d f s
    → ((d' : LogLevel) (f' : String → Option LogLevel)
        → Shows d' f' (step e s)
        → (k : String)
        → shown (JsMap.get k (run es (step e s)).loggers) ≡ exact (replay es d' f' k))
    → (k : String) → shown (JsMap.get k (run es (step e s)).loggers) ≡ exact (replay (e ∷ es) d f k)
unfolding step set_logger_factory
step-Shows (created m l) es d f s h go_on =
    go_on d (set_level m (or_default l d) f) (create_logger-Shows d f m l s h)
step-Shows (leveled l) es d f s h go_on =
    go_on l (λ k. relevel l (f k)) (set_log_level-Shows l d f s h)
step-Shows (factory_set n) es d f s h go_on =
    go_on d f (
      create_each_again-Shows d f (JsMap.keys s.loggers) (record s { actual_logger_factory = n }) h)

run-Shows :
    (es : List Event) (d : LogLevel) (f : String → Option LogLevel) (s : Loggers)
    → Shows d f s
    → (k : String) → shown (JsMap.get k (run es s).loggers) ≡ exact (replay es d f k)
unfolding run
run-Shows [] d f s h = h.1
run-Shows (e ∷ es) d f s h = step-Shows e es d f s h (λ d' f'. run-Shows es d' f' (step e s))

-- Whether a logger that may be there prints a call's line.
abbrev pub prints : Method → List String → ℕ → Option WrappedLogger → Bool
prints m args now none = false
prints m args now (some w) = is_some (log m args now w)

abbrev pub meant : Method → Option LogLevel → Bool
meant m none = false
meant m (some l) = leb (rank l) (rank (severity m))

abbrev is_on_shown : Method → Option (Option LogLevel × Flags) → Bool
is_on_shown m none = false
is_on_shown m (some x) = is_on m x.1

prints-shown :
    (m : Method) (args : List String) (now : ℕ) (o : Option WrappedLogger) (x : Option LogLevel)
    → shown o ≡ exact x
    → prints m args now o ≡ meant m x
unfolding log
prints-shown m args now none none same = refl
prints-shown m args now none (some l) same = ground arith
prints-shown m args now (some w) none same = ground arith
prints-shown m args now (some w) (some l) same =
    ground (arith, is_on-flags_for m l, ap (is_on_shown m) same)

-- After any calls of `createLogger`, `setLogLevel` and `setLoggerFactory`, a method of a logger prints
-- exactly when the logger has been created and its level, which is the one last given to it or else
-- the default level of the time of its last creation or setting, is the method's or a less severe one.
pub prints-run :
    (es : List Event) (k : String) (m : Method) (args : List String) (now : ℕ)
    → prints m args now (JsMap.get k (run es initial).loggers)
      ≡ meant m (replay es error (λ j. none) k)
unfolding initial JsMap.get JsMap.find
prints-run es k m args now =
    prints-shown m args now (JsMap.get k (run es initial).loggers) (replay es error (λ j. none) k)
      (run-Shows es error (λ j. none) initial (refl, λ j. refl) k)
