-- ===== src/Tests/Settings.antt =====
-- The entry point of the observer (observer/src/main.ts), the settings of the SFU (sfu/src/appconfig.ts), and
-- the tables of the web application (webapp/src/components/Stats).
use demo_app.Base.{◌==◌, List, [], ◌∷◌, ◌≡◌, refl, none, some, not, ◌&&◌, is_some, if◌then◌else◌}
use demo_app.Protocol.Json.{Json}
use demo_app.Net.Config.{Environment, Options, is_num, is_num_if_given}
use demo_app.Sfu.Config.{load_config, is_num-load_config}
use demo_app.Observer.Entry
use demo_app.Observer.Entry.{Query, Event}
use demo_app.Observer.Entry.Routing.{run-sources, clients_alone, sfus_alone}
use demo_app.Webapp.Stats.{Object, PeerConnection, assign, named, own_rows, pc_entry, update_rows}
use demo_app.Webapp.Stats.Tables.{AreRows, rows-pc_entry}

abbrev ann : Query
ann = record {
  client = record { client_id = some "ann"; room_id = some "lobby"; call_id = some "call-1" };
  sfu_id = none;
}

abbrev sfu : Query
sfu = record {
  client = record { client_id = none; room_id = none; call_id = none };
  sfu_id = some "sfu-1";
}

abbrev day : List Event
day =
    Event.socket_connected 0 "client-sample" ann
    ∷ Event.socket_connected 1 "sfu-sample" sfu
    ∷ Event.socket_connected 2 "chat" ann
    ∷ Event.socket_message 0 "sample"
    ∷ Event.signalled
    ∷ Event.socket_gone 7 1
    ∷ Event.signalled
    ∷ []

run-sources_example :
    ((Entry.run day Entry.init).clients ≡ clients_alone day Entry.init.clients)
    × ((Entry.run day Entry.init).sfus ≡ sfus_alone day Entry.init.sfus)
run-sources_example = run-sources day Entry.init

-- The port comes from the environment.
abbrev env : Environment
env name = if name == "PORT" then some "9000" else none

abbrev argv : Options
argv name = if name == "rtcMinPort" then some (Json.num "6000") else none

is_num-load_config_example :
    let loaded = load_config env argv (λ host. none) in
    (is_num loaded.port ≡ (not (is_some (env "PORT")) && is_num_if_given (argv "port")))
    × (is_num loaded.rtc_min_port
        ≡ (not (is_some (env "RTC_MIN_PORT")) && is_num_if_given (argv "rtcMinPort")))
    × (is_num loaded.rtc_max_port
        ≡ (not (is_some (env "RTC_MAX_PORT")) && is_num_if_given (argv "rtcMaxPort")))
is_num-load_config_example = is_num-load_config env argv (λ host. none)

abbrev statistics : Object
statistics =
    record { key = "id"; value = some (Json.str "RTCPeerConnection") }
    ∷ record { key = "dataChannelsOpened"; value = some (Json.num "1") }
    ∷ []

abbrev connection : PeerConnection
connection = record {
  id = "pc-1";
  label = some "snd";
  stats = some statistics;
  updates = record { key = "rtt"; value = some (Json.num "20") } ∷ [];
  transports = [];
  media_sources = [];
  audio_playouts = [];
  senders = [];
  receivers = [];
}

rows-pc_entry_example :
    AreRows connection.updates (update_rows (pc_entry (λ key. key) connection statistics))
    × AreRows
        (assign "id" (some (Json.str (named connection))) statistics)
        (own_rows (pc_entry (λ key. key) connection statistics))
rows-pc_entry_example =
    rows-pc_entry (λ key. key) connection statistics (tt, tt) ((refl, tt), (tt, tt))
      (refl, (refl, tt))
