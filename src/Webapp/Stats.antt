-- ===== src/Webapp/Stats.antt =====
-- The tables of statistics of webapp/src/components/Stats: what the listeners of `stats-collected`
-- collect of the monitor's storage (PeerConnectionStats.tsx, IceStats.tsx), `makePrefixedObj` of
-- webapp/src/utils/common.tsx, and how StatsCard.tsx divides an object into the rows of two tables.
--
-- An object is the list of its properties in their order; none of the keys is an array index.
pub mod Objects
pub mod Collecting
pub mod Tables
pub mod Remote
use demo_app.Base.{
  String, ◌==◌, List, [], ◌∷◌, ◌++◌, map, Bool, true, false, not, Option, none, some, if◌then◌else◌,
  or_else, select,
}
use Prim.Native.String as Text
use text.Mathlib.Text.{starts_with}
use demo_app.Protocol.Json.{Json}
use demo_app.Webapp.Cells.{Cell, cell}

pub record Property : Type 0 where
  pub key : String
  -- none is undefined
  pub value : Option Json

abbrev pub Object : Type 0
Object = List Property

-- `o[key] = value`: a new key comes last.
unfoldable pub assign : String → Option Json → Object → Object
assign key value [] = record { key = key; value = value } ∷ []
assign key value (p ∷ o) =
    if p.key == key then record p { value = value } ∷ o else p ∷ assign key value o

-- `{ ...o, ...source }`
unfoldable pub spread : Object → Object → Object
unfolding assign
spread [] o = o
spread (p ∷ source) o = spread source (assign p.key p.value o)

-- `undefined` in a template.
abbrev pub printed : Option String → String
printed none = "undefined"
printed (some t) = t

-- The key with its first letter in upper case is JavaScript's, and an argument.
unfoldable pub make_prefixed_obj :
    (String → String) → Object → Option String → Bool → Object → Object
unfolding assign
make_prefixed_obj capitalize [] prefix camel_case result = result
make_prefixed_obj capitalize (p ∷ o) prefix camel_case result =
    make_prefixed_obj capitalize o prefix camel_case (
      assign (Text.◌++◌ (printed prefix) (if camel_case then capitalize p.key else p.key)) p.value
        result)

-- Of an entry of the storage, what the listener reads.
pub record PeerConnection : Type 0 where
  pub id : String
  pub label : Option String
  pub stats : Option Object
  pub updates : Object
  pub transports : List Object
  pub media_sources : List Object
  pub audio_playouts : List Object
  pub senders : List Object
  pub receivers : List Object

pub record Collected : Type 0 where
  pub pcs : List Object
  pub transports : List Object
  pub audio_sources : List Object
  pub video_sources : List Object
  pub audio_playouts : List Object
  pub senders : List Object
  pub receivers : List Object

unfoldable pub named : PeerConnection → String
named c = elim c.label [ none ↦ c.id | some label ↦ label ]

-- `{ ...stats, ...makePrefixedObj(updates, 'updates-'), id }`
unfoldable pub pc_entry : (String → String) → PeerConnection → Object → Object
unfolding assign spread make_prefixed_obj named
pc_entry capitalize c stats =
    assign "id" (some (Json.str (named c)))
      (spread (make_prefixed_obj capitalize c.updates (some "updates-") false []) (spread stats []))

unfoldable pub transport_entry : PeerConnection → Object → Object
unfolding assign spread named
transport_entry c stats = assign "id" (some (Json.str (named c))) (spread stats [])

-- `stats.kind === 'audio'`
unfoldable pub is_audio : Object → Bool
is_audio [] = false
is_audio (p ∷ o) = if p.key == "kind" then is_str p.value else is_audio o
  where
    is_str : Option Json → Bool
    is_str (some (Json.str t)) = t == "audio"
    is_str j = false

-- The loop over the transports of a connection.
unfoldable pub push_transports : PeerConnection → List Object → Collected → Collected
unfolding transport_entry
push_transports c [] s = s
push_transports c (t ∷ ts) s = push_transports c ts (elim c.stats [
  | none ↦ s
  | some own ↦ record s { transports = s.transports ++ transport_entry c t ∷ [] }
])

unfoldable pub push_sources : List Object → Collected → Collected
unfolding is_audio
push_sources [] s = s
push_sources (m ∷ ms) s = push_sources ms (
    if is_audio m
    then record s { audio_sources = s.audio_sources ++ m ∷ [] }
    else record s { video_sources = s.video_sources ++ m ∷ [] })

unfoldable pub push_playouts : List Object → Collected → Collected
push_playouts [] s = s
push_playouts (a ∷ rest) s =
    push_playouts rest (record s { audio_playouts = s.audio_playouts ++ a ∷ [] })

unfoldable pub push_senders : List Object → Collected → Collected
push_senders [] s = s
push_senders (a ∷ rest) s = push_senders rest (record s { senders = s.senders ++ a ∷ [] })

unfoldable pub push_receivers : List Object → Collected → Collected
push_receivers [] s = s
push_receivers (a ∷ rest) s = push_receivers rest (record s { receivers = s.receivers ++ a ∷ [] })

-- The round of the listener for a connection.
unfoldable pub push_connection : (String → String) → PeerConnection → Collected → Collected
unfolding pc_entry push_transports push_sources push_playouts push_senders push_receivers
push_connection capitalize c s =
    let begun : Collected = elim c.stats [
      | none ↦ s
      | some stats ↦ record s { pcs = s.pcs ++ pc_entry capitalize c stats ∷ [] }
    ] in
    push_receivers c.receivers (
      push_senders c.senders (
        push_playouts c.audio_playouts
          (push_sources c.media_sources (push_transports c c.transports begun))))

abbrev pub nothing : Collected
nothing = record {
  pcs = [];
  transports = [];
  audio_sources = [];
  video_sources = [];
  audio_playouts = [];
  senders = [];
  receivers = [];
}

unfoldable pub push_all : (String → String) → List PeerConnection → Collected → Collected
unfolding push_connection
push_all capitalize [] s = s
push_all capitalize (c ∷ cs) s = push_all capitalize cs (push_connection capitalize c s)

-- The listener of PeerConnectionStats.tsx: what it hands to the seven setters.
unfoldable pub collect : (String → String) → List PeerConnection → Collected
unfolding push_all
collect capitalize cs = push_all capitalize cs nothing

-- `stats ?? {}`: each of the three loops of the listener of IceStats.tsx.
unfoldable pub collect_ice : List (Option Object) → List Object → List Object
collect_ice [] pushed = pushed
collect_ice (s ∷ rest) pushed = collect_ice rest (pushed ++ or_empty s ∷ [])
  where
    or_empty : Option Object → Object
    or_empty none = []
    or_empty (some o) = o

-- `text.replace(what, '')`: the first occurrence goes.
unfoldable pub remove_first : String → String → String
remove_first what String.[] = String.[]
remove_first what (String.◌∷◌ c t) =
    let text = String.◌∷◌ c t in
    let later = String.◌∷◌ c (remove_first what t) in
    if starts_with text what then Text.slice text (Text.len what) (Text.len text) else later

-- A row of a table: a label, and what stands beside it.
pub record Row : Type 0 where
  pub label : String
  pub shown : Cell

-- The rows of a card's first table.
unfoldable pub own_rows : Object → List Row
unfolding cell
own_rows o =
    map (λ (p : Property). record { label = p.key; shown = cell p.value })
      (select (λ p. not (starts_with p.key "updates-")) o)

-- The rows of its second table.
unfoldable pub update_rows : Object → List Row
unfolding remove_first cell
update_rows o =
    map (λ (p : Property). record { label = remove_first "updates-" p.key; shown = cell p.value })
      (select (λ p. starts_with p.key "updates-") o)
