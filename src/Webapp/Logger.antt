-- ===== src/Webapp/Logger.antt =====
-- The loggers of webapp/src/utils/logger.tsx. The levels, the methods and the tests of a level are as
-- in the servers' loggers; a module's name stands for the object that the map has under it. All write
-- to the console.
pub mod Levels
use demo_app.Base.{String, List, [], ◌∷◌, Bool, false, Option, none, some, if◌then◌else◌}
use demo_app.Base.JsMap
use demo_app.Base.JsMap.{JsMap, Entry}
use demo_app.Net.Logger.{
  LogLevel, info, trace, debug, warn, error, includes, Flags, Method, is_on, or_default,
}

pub record WrappedLogger : Type 0 where
  pub level : LogLevel
  pub flags : Flags

pub record Loggers : Type 0 where
  pub default_level : LogLevel
  pub loggers : JsMap WrappedLogger

pub initial : Loggers
initial = record { default_level = info; loggers = JsMap.empty }

pub wrap_logger : LogLevel → WrappedLogger
wrap_logger log_level = record {
  level = log_level;
  flags = record {
    is_trace = false;
    is_debug = false;
    is_info = false;
    is_warning = false;
    is_error = false;
  };
}

pub init : WrappedLogger → WrappedLogger
unfolding includes
init w = record w {
  flags = record {
    is_trace = includes w.level (trace ∷ []);
    is_debug = includes w.level (trace ∷ debug ∷ []);
    is_info = includes w.level (trace ∷ debug ∷ info ∷ []);
    is_warning = includes w.level (trace ∷ debug ∷ info ∷ warn ∷ []);
    is_error = includes w.level (trace ∷ debug ∷ info ∷ warn ∷ error ∷ []);
  };
}

-- The setter of `level`.
abbrev pub set_level : LogLevel → WrappedLogger → WrappedLogger
set_level l w = record w { level = l }

-- The wrapped logger that `createLogger` goes on with.
pub obtain : String → Option LogLevel → Loggers → WrappedLogger
unfolding wrap_logger
obtain module_name log_level s = elim (JsMap.get module_name s.loggers) [
  | none ↦ wrap_logger (or_default log_level s.default_level)
  | some w ↦ set_level (or_default log_level s.default_level) w
]

pub create_logger : String → Option LogLevel → Loggers → Loggers
unfolding init obtain
create_logger module_name log_level s = record s {
  loggers = JsMap.set module_name (init (obtain module_name log_level s)) s.loggers;
}

-- The loop of `setLogLevel`, over the objects in the map.
pub level_each : LogLevel → List (Entry WrappedLogger) → List (Entry WrappedLogger)
unfolding init
level_each l [] = []
level_each l (e ∷ es) = record e { value = init (set_level l e.value) } ∷ level_each l es

pub set_log_level : LogLevel → Loggers → Loggers
unfolding level_each
set_log_level l s = record {
  default_level = l;
  loggers = record (s.loggers) { entries = level_each l s.loggers.entries };
}

-- Whether a method of a logger prints.
pub prints : Method → Option WrappedLogger → Bool
unfolding is_on
prints m none = false
prints m (some w) = is_on m w.flags

pub data Event : Type 0 where
  created : (module_name : String) (log_level : Option LogLevel) → Event
  leveled : (level : LogLevel) → Event

pub step : Event → Loggers → Loggers
unfolding create_logger set_log_level
step (created m l) s = create_logger m l s
step (leveled l) s = set_log_level l s

pub run : List Event → Loggers → Loggers
unfolding step
run [] s = s
run (e ∷ es) s = run es (step e s)
