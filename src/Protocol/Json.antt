-- ===== src/Protocol/Json.antt =====
-- JSON values, as `JSON.parse` yields and `JSON.stringify` takes them. The media parameters of
-- mediasoup (capabilities, RTP, ICE and DTLS parameters) are such values, which the program passes on.
use demo_app.Base.{String, ◌==◌, Option, none, some, Bool, if◌then◌else◌}

mutual
  pub data Json : Type 0 where
    null : Json
    bool : Bool → Json
    -- A number by its literal.
    num : String → Json
    str : String → Json
    arr : Items → Json
    obj : Fields → Json

  pub data Items : Type 0 where
    nil : Items
    cons : Json → Items → Items

  pub data Fields : Type 0 where
    end : Fields
    field : String → Json → Fields → Fields

-- Reading a property of an object.
unfoldable pub property : String → Fields → Option Json
property k end = none
property k (field j v fs) = if j == k then some v else property k fs

-- The own properties of a value; only an object has any that the program reads.
unfoldable pub fields_of : Json → Fields
fields_of (obj fs) = fs
fields_of _ = end

abbrev pub text_of : Json → Option String
text_of (str s) = some s
text_of _ = none
