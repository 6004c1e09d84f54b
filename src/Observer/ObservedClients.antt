-- ===== src/Observer/ObservedClients.antt =====
-- `ObservedClients` of observer/src/sources/ObservedClients.ts.
use demo_app.Base.{String, ℕ, ◌||◌, not, Option, none, some, if◌then◌else◌, truthy}
use demo_app.Observer.Sources
use demo_app.Observer.Sources.{Peer, Sources}

pub record Query : Type 0 where
  pub client_id : Option String
  pub room_id : Option String
  pub call_id : Option String

abbrev accept_text : Option String → ℕ → Sources → Sources
accept_text none w s = Sources.refuse w s
accept_text (some id) w s = Sources.accept id w s

unfoldable pub accept : Query → ℕ → Sources → Sources
unfolding Sources.accept Sources.refuse
accept q web_socket s =
    if not (truthy q.client_id) || not (truthy q.room_id) || not (truthy q.call_id)
    then Sources.refuse web_socket s
    else accept_text q.client_id web_socket s

-- `_disconnect` assigns nothing but the time.
unfoldable pub on_disconnect : Peer → Peer
on_disconnect p = p

unfoldable pub disconnect : ℕ → String → Sources → Sources
unfolding Sources.disconnect on_disconnect
disconnect = Sources.disconnect on_disconnect

unfoldable pub socket_closed : ℕ → ℕ → Sources → Sources
unfolding Sources.socket_closed on_disconnect
socket_closed = Sources.socket_closed on_disconnect

unfoldable pub clear : ℕ → Sources → Sources
unfolding Sources.clear on_disconnect
clear = Sources.clear on_disconnect
