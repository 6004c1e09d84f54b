-- ===== src/Sfu/Config.antt =====
-- `appConfigSchema` and `loadConfig` of sfu/src/appconfig.ts.
use demo_app.Base.{String, List, ◌∷◌, [], ◌≡◌, refl, Option, none, some, not, ◌&&◌, is_some}
use demo_app.Protocol.Json.{Json}
use demo_app.Net.Config.{
  Entry, Environment, Options, load_config_entry, override, is_num, is_num_if_given,
  is_num-load_config_entry,
}

abbrev server_ip : Entry
server_ip = record {
  argv = "serverIp";
  env = "SERVER_IP";
  doc = "The IP of the server";
  default_value = Json.str "127.0.0.1";
}

abbrev announced_ip : Entry
announced_ip = record {
  argv = "announcedIp";
  env = "ANNOUNCED_IP";
  doc = "The announced IP the mediasoup will use for RTC connections";
  default_value = Json.str "127.0.0.1";
}

abbrev hostname : Entry
hostname = record {
  argv = "hostname";
  env = "HOSTNAME";
  doc = "The hostname of the server";
  default_value = Json.str "localhost";
}

abbrev log_level : Entry
log_level = record {
  argv = "logLevel";
  env = "LOG_LEVEL";
  doc = "The logLevel of the server";
  default_value = Json.str "debug";
}

abbrev port : Entry
port = record {
  argv = "port";
  env = "PORT";
  doc = "The port number the server listens";
  default_value = Json.num "8080";
}

abbrev rtc_min_port : Entry
rtc_min_port = record {
  argv = "rtcMinPort";
  env = "RTC_MIN_PORT";
  doc = "The minimum port the server accepts RTC connections";
  default_value = Json.num "5000";
}

abbrev rtc_max_port : Entry
rtc_max_port = record {
  argv = "rtcMaxPort";
  env = "RTC_MAX_PORT";
  doc = "The maximum port the server accepts RTC connections";
  default_value = Json.num "5100";
}

abbrev pub schema : List (String × Entry)
schema =
    ("serverIp", server_ip)
    ∷ ("announcedIp", announced_ip)
    ∷ ("hostname", hostname)
    ∷ ("logLevel", log_level)
    ∷ ("port", port)
    ∷ ("rtcMinPort", rtc_min_port)
    ∷ ("rtcMaxPort", rtc_max_port)
    ∷ []

pub record Config : Type 0 where
  pub server_ip : Json
  pub announced_ip : Json
  pub hostname : Json
  pub port : Json
  pub rtc_min_port : Json
  pub rtc_max_port : Json
  pub log_level : Json

abbrev address : Option String → Option Json
address none = none
address (some t) = some (Json.str t)

-- `loadConfig`, with what `dns.lookup` answers: no address when it fails.
unfoldable pub load_config : Environment → Options → (Json → Option String) → Config
unfolding load_config_entry
load_config env argv lookup =
    let host = load_config_entry env argv hostname none in
    record {
      server_ip = load_config_entry env argv server_ip (address (lookup host));
      announced_ip = load_config_entry env argv announced_ip none;
      hostname = host;
      port = load_config_entry env argv port none;
      rtc_min_port = load_config_entry env argv rtc_min_port none;
      rtc_max_port = load_config_entry env argv rtc_max_port none;
      log_level = load_config_entry env argv log_level none;
    }

-- A variable of the environment overrides its own setting and no other one, with its text, whatever the
-- command line has; `HOSTNAME` alone also changes the default of the server's address, which is then looked
-- up for the new name.
pub load_config-override :
    (env : Environment) (argv : Options) (lookup : Json → Option String) (t : String)
    → let loaded = load_config env argv lookup in
      let text = Json.str t in
      (load_config (override "SERVER_IP" t env) argv lookup ≡ record loaded { server_ip = text })
      × (load_config (override "ANNOUNCED_IP" t env) argv lookup
          ≡ record loaded { announced_ip = text })
      × (load_config (override "PORT" t env) argv lookup ≡ record loaded { port = text })
      × (load_config (override "RTC_MIN_PORT" t env) argv lookup
          ≡ record loaded { rtc_min_port = text })
      × (load_config (override "RTC_MAX_PORT" t env) argv lookup
          ≡ record loaded { rtc_max_port = text })
      × (load_config (override "LOG_LEVEL" t env) argv lookup ≡ record loaded { log_level = text })
      × (load_config (override "HOSTNAME" t env) argv lookup ≡ record loaded {
        hostname = text;
        server_ip = load_config_entry env argv server_ip (address (lookup text));
      })
unfolding load_config load_config_entry
load_config-override env argv lookup t = (refl, refl, refl, refl, refl, refl, refl)

-- The three ports are numbers exactly when the environment does not set them and the command line gives a
-- number or nothing. A port from the environment is a text.
pub is_num-load_config :
    (env : Environment) (argv : Options) (lookup : Json → Option String)
    → let loaded = load_config env argv lookup in
      (is_num loaded.port ≡ (not (is_some (env "PORT")) && is_num_if_given (argv "port")))
      × (is_num loaded.rtc_min_port
          ≡ (not (is_some (env "RTC_MIN_PORT")) && is_num_if_given (argv "rtcMinPort")))
      × (is_num loaded.rtc_max_port
          ≡ (not (is_some (env "RTC_MAX_PORT")) && is_num_if_given (argv "rtcMaxPort")))
unfolding load_config
is_num-load_config env argv lookup = (
  is_num-load_config_entry env argv port refl,
  is_num-load_config_entry env argv rtc_min_port refl,
  is_num-load_config_entry env argv rtc_max_port refl,
)
