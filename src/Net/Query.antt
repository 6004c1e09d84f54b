-- ===== src/Net/Query.antt =====
-- The query strings that webapp/src/contexts/MediaServiceContext.tsx and sfu/src/main.ts make of the
-- properties of an object. Neither a key nor a value is escaped.
use demo_app.Base.{String, List, [], ◌∷◌, ◌≡◌, refl, Option, none, some}
use Prim.Native.String as Text
use text.Mathlib.TextLemmas.{append_assoc}

-- `${str}&${key}=${val}`
unfoldable pub add_parameter : String → String × String → String
add_parameter str p = Text.◌++◌ str (Text.◌++◌ "&" (Text.◌++◌ p.0 (Text.◌++◌ "=" p.1)))

-- The calls of `reduce`, on what is made so far.
unfoldable pub reduce : List (String × String) → String → String
unfolding add_parameter
reduce [] str = str
reduce (p ∷ ps) str = reduce ps (add_parameter str p)

unfoldable pub query_string : List (String × String) → String
unfolding reduce
query_string ps = reduce ps ""

-- A value in a template: an undefined one is written out.
abbrev pub printed : Option String → String
printed none = "undefined"
printed (some t) = t

-- The query of the web application's connection to the SFU.
unfoldable pub client_query : String → Option String → String → String
unfolding query_string
client_query client_id user_id room_id =
    query_string (("clientId", client_id) ∷ ("userId", printed user_id) ∷ ("roomId", room_id) ∷ [])

-- That of the SFU's connection to the observer.
unfoldable pub sfu_query : String → String
unfolding query_string
sfu_query sfu_id = query_string (("sfuId", sfu_id) ∷ [])

-- A client can put a second `roomId` into its user id: two clients that ask for different rooms under
-- different user ids have the same query.
pub client_query-collides :
    (client_id user room other : String)
    → client_query client_id (some user) (add_parameter room ("roomId", other))
      ≡ client_query client_id (some (add_parameter user ("roomId", room))) other
unfolding client_query query_string reduce add_parameter
client_query-collides client_id user room other = simp (append_assoc) refl
