-- ===== src/Observer/ObservedSfus.antt =====
-- `ObservedSfus` of observer/src/sources/ObservedSfus.ts.
use demo_app.Base.{String, ℕ, not, Option, none, some, if◌then◌else◌, truthy}
use demo_app.Observer.Sources
use demo_app.Observer.Sources.{Peer, Sources}

abbrev accept_text : Option String → ℕ → Sources → Sources
accept_text none w s = Sources.refuse w s
accept_text (some id) w s = Sources.accept id w s

unfoldable pub accept : (sfu_id : Option String) → ℕ → Sources → Sources
unfolding Sources.accept Sources.refuse
accept sfu_id web_socket s =
    if not (truthy sfu_id) then Sources.refuse web_socket s else accept_text sfu_id web_socket s

-- `_disconnect` also forgets the web socket.
unfoldable pub on_disconnect : Peer → Peer
on_disconnect p = record p { web_socket = none }

unfoldable pub disconnect : ℕ → String → Sources → Sources
unfolding Sources.disconnect on_disconnect
disconnect = Sources.disconnect on_disconnect

unfoldable pub socket_closed : ℕ → ℕ → Sources → Sources
unfolding Sources.socket_closed on_disconnect
socket_closed = Sources.socket_closed on_disconnect

unfoldable pub check : (limit now : ℕ) → Sources → Sources
unfolding Sources.check
check = Sources.check

unfoldable pub clear : ℕ → Sources → Sources
unfolding Sources.clear on_disconnect
clear = Sources.clear on_disconnect

unfoldable pub remove : String → Sources → Sources
unfolding Sources.remove
remove = Sources.remove

unfoldable pub setup : Peer → ℕ → Sources → Sources
unfolding Sources.setup
setup = Sources.setup
