-- ===== src/Sfu/Room/Separation/Listeners.antt =====
-- No event of sfu/src/media/Room.ts makes a client consume its own media.
use demo_app.Base.JsMap
use demo_app.Protocol.Json.{Json}
use demo_app.Sfu.Room.State.{Room}
