-- ===== src/Webapp/MediasoupService/Media.antt =====
-- The producers and consumers of webapp/src/contexts/MediasoupService.tsx: the listeners of the
-- connection, `produceMedia`, `pauseMedia` and `resumeMedia`.
use demo_app.Base.{
  String, ◌==◌, ℕ, List, [], ◌∷◌, ◌++◌, Bool, true, false, not, Option, none, some, if◌then◌else◌,
  get_elem?, erase_idx,
}
use demo_app.Base.JsMap
use demo_app.Base.JsMap.{JsMap, Entry}
use demo_app.Protocol.Messages.{MediaKind, RemoteClient}
use demo_app.Webapp.MediasoupService.State.{MediaObject, MediasoupService, Output, output}

-- The listener of `consumer-created-notification`, up to its await.
unfoldable pub consumer_created :
    String → String → MediaKind → RemoteClient → MediasoupService → MediasoupService
unfolding output
consumer_created consumer_id producer_id kind client s = elim s.rcv_transport [
  | none ↦ s
  | some t ↦
      output (Output.consume_asked t.id consumer_id producer_id kind)
        (record s { consuming = s.consuming ++ client ∷ [] })
]

unfoldable pub add_consumer : RemoteClient → MediaObject → MediasoupService → MediasoupService
unfolding output
add_consumer client consumer s =
    output (Output.added_media_consumer client.client_id client.user_id consumer.track_id)
      (record s { consumers = JsMap.set consumer.id consumer s.consumers })

-- The rest of that listener, for the call of `consume` with the number among those awaited.
unfoldable pub consumed : ℕ → MediaObject → MediasoupService → MediasoupService
unfolding add_consumer
consumed n consumer s = elim (get_elem? s.consuming n) [
  | none ↦ s
  | some client ↦ add_consumer client consumer (record s { consuming = erase_idx s.consuming n })
]

-- That call is rejected.
unfoldable pub consume_failed : ℕ → MediasoupService → MediasoupService
unfolding output
consume_failed n s = elim (get_elem? s.consuming n) [
  | none ↦ s
  | some client ↦ output Output.unhandled (record s { consuming = erase_idx s.consuming n })
]

-- The listener of `consumer-closed-notification`.
unfoldable pub consumer_closed : String → MediasoupService → MediasoupService
unfolding output
consumer_closed consumer_id s = elim (JsMap.get consumer_id s.consumers) [
  | none ↦ s
  | some consumer ↦ output (Output.removed_media_consumer consumer.track_id) s
]

-- The observer's `close` of a consumer and of a producer.
unfoldable pub consumer_gone : String → MediasoupService → MediasoupService
consumer_gone id s = record s { consumers = JsMap.delete id s.consumers }

unfoldable pub producer_gone : String → MediasoupService → MediasoupService
producer_gone id s = record s { producers = JsMap.delete id s.producers }

-- `produceMedia`, up to its await.
unfoldable pub produce_media : String → MediasoupService → MediasoupService
unfolding output
produce_media track_id s = elim s.snd_transport [
  | none ↦ output Output.thrown s
  | some t ↦ output (Output.produce_asked t.id track_id) s
]

-- The rest of `produceMedia`.
unfoldable pub add_producer : MediaObject → MediasoupService → MediasoupService
add_producer producer s = record s { producers = JsMap.set producer.id producer s.producers }

abbrev pub has_track : String → Option String → Bool
has_track track_id none = false
has_track track_id (some t) = t == track_id

unfoldable pub find_by_track : String → List (Entry MediaObject) → Option (Entry MediaObject)
find_by_track track_id [] = none
find_by_track track_id (e ∷ es) =
    if has_track track_id e.value.track_id then some e else find_by_track track_id es

-- Where a media object is, with its key.
pub data Found : Type 0 where
  nothing : Found
  producer consumer : Entry MediaObject → Found

unfoldable pub first_of : Option (Entry MediaObject) → Option (Entry MediaObject) → Found
first_of (some e) c = Found.producer e
first_of none (some e) = Found.consumer e
first_of none none = Found.nothing

-- `_findMediaObjectByTrack`
unfoldable pub find_media_object_by_track : String → MediasoupService → Found
unfolding find_by_track first_of
find_media_object_by_track track_id s =
    first_of (find_by_track track_id s.producers.entries)
      (find_by_track track_id s.consumers.entries)

abbrev pub set_paused : Bool → MediaObject → MediaObject
set_paused b m = record m { paused = b }

abbrev pub same : Bool → Bool → Bool
same true b = b
same false b = not b

abbrev pub switched : Bool → String → Output
switched true id = Output.paused id
switched false id = Output.resumed id

-- `pause` or `resume` of the object, unless it is so already.
unfoldable pub switch : Bool → Found → MediasoupService → MediasoupService
unfolding output
switch b Found.nothing s = s
switch b (Found.producer e) s =
    if same b e.value.paused
    then s
    else output (switched b e.value.id)
        (record s { producers = JsMap.set e.key (set_paused b e.value) s.producers })
switch b (Found.consumer e) s =
    if same b e.value.paused
    then s
    else output (switched b e.value.id)
        (record s { consumers = JsMap.set e.key (set_paused b e.value) s.consumers })

unfoldable pub pause_media : String → MediasoupService → MediasoupService
unfolding switch find_media_object_by_track
pause_media track_id s = switch true (find_media_object_by_track track_id s) s

unfoldable pub resume_media : String → MediasoupService → MediasoupService
unfolding switch find_media_object_by_track
resume_media track_id s = switch false (find_media_object_by_track track_id s) s
