-- ===== src/Net/Logger.antt =====
-- The loggers of observer/src/common/logger.ts, of which sfu/src/common/logger.ts is a copy. A module
-- holds the wrapped logger object that the map has under its name, so the name stands for the object.
-- A factory is a number, and so is a logger that one made; the console is the logger of factory 0.
pub mod Levels
pub mod Sinks
use demo_app.Base.{
  String, ℕ, List, [], ◌∷◌, ◌≡◌, Bool, true, false, ◌||◌, Option, none, some, if◌then◌else◌, eqb,
  or_else,
}
use demo_app.Base.JsMap
use demo_app.Base.JsMap.{JsMap}

pub data LogLevel : Type 0 where
  trace debug info warn error silent : LogLevel

-- The position in the union type, as the identity of a level.
abbrev pub rank : LogLevel → ℕ
rank trace = 0
rank debug = 1
rank info = 2
rank warn = 3
rank error = 4
rank silent = 5

-- `levels.includes(level)`
unfoldable pub includes : LogLevel → List LogLevel → Bool
includes l [] = false
includes l (x ∷ xs) = eqb (rank x) (rank l) || includes l xs

pub record Flags : Type 0 where
  pub is_trace : Bool
  pub is_debug : Bool
  pub is_info : Bool
  pub is_warning : Bool
  pub is_error : Bool

pub record WrappedLogger : Type 0 where
  -- The logger that the methods close over.
  pub logger : ℕ
  pub module_name : String
  pub level : Option LogLevel
  pub flags : Flags

pub record Loggers : Type 0 where
  pub default_level : LogLevel
  pub actual_logger_factory : ℕ
  pub loggers : JsMap WrappedLogger

unfoldable pub initial : Loggers
initial = record { default_level = error; actual_logger_factory = 0; loggers = JsMap.empty }

abbrev pub or_default : Option LogLevel → LogLevel → LogLevel
or_default (some l) d = l
or_default none d = d

unfoldable pub wrap_logger : ℕ → String → Option LogLevel → WrappedLogger
wrap_logger logger module_name log_level = record {
  logger = logger;
  module_name = module_name;
  level = log_level;
  flags = record {
    is_trace = false;
    is_debug = false;
    is_info = false;
    is_warning = false;
    is_error = false;
  };
}

unfoldable pub flags_for : LogLevel → Flags
unfolding includes
flags_for l = record {
  is_trace = includes l (trace ∷ []);
  is_debug = includes l (trace ∷ debug ∷ []);
  is_info = includes l (trace ∷ debug ∷ info ∷ []);
  is_warning = includes l (trace ∷ debug ∷ info ∷ warn ∷ []);
  is_error = includes l (trace ∷ debug ∷ info ∷ warn ∷ error ∷ []);
}

unfoldable pub init : LogLevel → WrappedLogger → WrappedLogger
unfolding flags_for
init default_level w = record w { flags = flags_for (or_default w.level default_level) }

-- The wrapped logger that `createLogger` goes on with.
unfoldable pub obtain : String → Option LogLevel → Loggers → WrappedLogger
unfolding wrap_logger
obtain module_name log_level s =
    let level = some (or_default log_level s.default_level) in
    elim (JsMap.get module_name s.loggers) [
      | none ↦ wrap_logger s.actual_logger_factory module_name level
      | some w ↦ record w { level = level }
    ]

unfoldable pub create_logger : String → Option LogLevel → Loggers → Loggers
unfolding init obtain
create_logger module_name log_level s = record s {
  loggers = JsMap.set module_name (init s.default_level (obtain module_name log_level s)) s.loggers;
}

-- The loop of `setLogLevel`.
unfoldable pub level_each : List String → LogLevel → Loggers → Loggers
unfolding create_logger
level_each [] l s = s
level_each (m ∷ ms) l s = level_each ms l (create_logger m (some l) s)

unfoldable pub set_log_level : LogLevel → Loggers → Loggers
unfolding level_each
set_log_level l s = level_each (JsMap.keys s.loggers) l (record s { default_level = l })

-- The body of the loop of `setLoggerFactory`.
unfoldable pub create_again : String → Loggers → Loggers
unfolding create_logger
create_again m s = elim (JsMap.get m s.loggers) [ none ↦ s | some w ↦ create_logger m w.level s ]

unfoldable pub create_each_again : List String → Loggers → Loggers
unfolding create_again
create_each_again [] s = s
create_each_again (m ∷ ms) s = create_each_again ms (create_again m s)

unfoldable pub set_logger_factory : ℕ → Loggers → Loggers
unfolding create_each_again
set_logger_factory factory s =
    create_each_again (JsMap.keys s.loggers) (record s { actual_logger_factory = factory })

-- The methods of a logger.
pub data Method : Type 0 where
  tracing debugging informing warning failing : Method

unfoldable pub is_on : Method → Flags → Bool
is_on tracing f = f.is_trace
is_on debugging f = f.is_debug
is_on informing f = f.is_info
is_on warning f = f.is_warning
is_on failing f = f.is_error

pub data Color : Type 0 where
  magenta cyan green yellow red : Color

abbrev pub color : Method → Color
color tracing = magenta
color debugging = cyan
color informing = green
color warning = yellow
color failing = red

-- What a logger is given: the colour and the tag of the prefix, the module, and the elapsed time.
pub record Line : Type 0 where
  pub logger : ℕ
  pub method : Method
  pub prefix_color : Color
  pub module_name : String
  pub args : List String
  pub elapsed_in_ms : ℕ

pub log : Method → List String → ℕ → WrappedLogger → Option Line
unfolding is_on
log method args elapsed w =
    if is_on method w.flags
    then some (record {
      logger = w.logger;
      method = method;
      prefix_color = color method;
      module_name = w.module_name;
      args = args;
      elapsed_in_ms = elapsed;
    })
    else none

pub data Event : Type 0 where
  created : (module_name : String) (log_level : Option LogLevel) → Event
  leveled : (level : LogLevel) → Event
  factory_set : (factory : ℕ) → Event

unfoldable pub step : Event → Loggers → Loggers
unfolding create_logger set_log_level set_logger_factory
step (created m l) s = create_logger m l s
step (leveled l) s = set_log_level l s
step (factory_set f) s = set_logger_factory f s

unfoldable pub run : List Event → Loggers → Loggers
unfolding step
run [] s = s
run (e ∷ es) s = run es (step e s)
