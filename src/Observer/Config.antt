-- ===== src/Observer/Config.antt =====
-- `appConfigSchema` and `loadConfig` of observer/src/appconfig.ts.
use demo_app.Base.{String, List, ◌∷◌, [], ◌≡◌, refl, none}
use demo_app.Protocol.Json.{Json}
use demo_app.Net.Config.{Entry, Environment, Options, load_config_entry, override}

abbrev service_id : Entry
service_id = record {
  argv = "serviceId";
  env = "SERVICE_ID";
  doc = "The serviceId used in the observer";
  default_value = Json.str "observertc";
}

abbrev media_unit_id : Entry
media_unit_id = record {
  argv = "mediaUnitId";
  env = "MEDIIA_UNIT_ID";
  doc = "the meida unit id used in the observer";
  default_value = Json.str "demo-app";
}

abbrev log_level : Entry
log_level = record {
  argv = "logLevel";
  env = "LOG_LEVEL";
  doc = "The logLevel of the server";
  default_value = Json.str "debug";
}

abbrev port : Entry
port = record {
  argv = "port";
  env = "PORT";
  doc = "The port number the server listens";
  default_value = Json.num "7080";
}

abbrev pub schema : List (String × Entry)
schema =
    ("serviceId", service_id)
    ∷ ("mediaUnitId", media_unit_id)
    ∷ ("logLevel", log_level)
    ∷ ("port", port)
    ∷ []

pub record Config : Type 0 where
  pub service_id : Json
  pub media_unit_id : Json
  pub port : Json
  pub log_level : Json

unfoldable pub load_config : Environment → Options → Config
unfolding load_config_entry
load_config env argv = record {
  service_id = load_config_entry env argv service_id none;
  media_unit_id = load_config_entry env argv media_unit_id none;
  port = load_config_entry env argv port none;
  log_level = load_config_entry env argv log_level none;
}

-- A variable of the environment overrides its own setting and no other one. The variable of the media
-- unit is spelled `MEDIIA_UNIT_ID`; one with the name `MEDIA_UNIT_ID` changes nothing.
pub load_config-overriding :
    (env : Environment) (argv : Options) (t : String)
    → let loaded = load_config env argv in
      let text = Json.str t in
      (load_config (override "SERVICE_ID" t env) argv ≡ record loaded { service_id = text })
      × (load_config (override "MEDIIA_UNIT_ID" t env) argv
          ≡ record loaded { media_unit_id = text })
      × (load_config (override "PORT" t env) argv ≡ record loaded { port = text })
      × (load_config (override "LOG_LEVEL" t env) argv ≡ record loaded { log_level = text })
      × (load_config (override "MEDIA_UNIT_ID" t env) argv ≡ loaded)
unfolding load_config load_config_entry
load_config-overriding env argv t = (refl, refl, refl, refl, refl)
