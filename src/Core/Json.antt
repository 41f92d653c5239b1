-- ===== src/Core/Json.antt =====
-- Values of JSON and their canonical form (`canonicalizeJsonValue` of packages/core/src/purchase.ts).
-- A number that is no safe integer is its text. `before` is the order of the texts that
-- `Array.prototype.sort` goes by. A key of an object that is missing is no member, so what the source
-- skips as undefined is not there; keys like `1`, which the engine lists first, stand where sorting puts
-- them.
use steelyard_sdk.Base.{ℕ, String, Bool, Option, some, none, str_eq, if◌then◌else◌}

mutual
  pub data Json : Type 0 where
    null : Json
    boolean : Bool → Json
    natural : ℕ → Json
    negative : ℕ → Json
    other_number : (text : String) → Json
    text : String → Json
    array : Items → Json
    object : Fields → Json

  pub data Items : Type 0 where
    no_items : Items
    item : Json → Items → Items

  pub data Fields : Type 0 where
    no_fields : Fields
    field : (key : String) → Json → Fields → Fields

-- `value[key]` of a record; none is undefined
unfoldable pub get : String → Fields → Option Json
get key no_fields = none
get key (field k v rest) = if str_eq k key then some v else get key rest

-- `asRecord`
abbrev pub as_record : Option Json → Fields
as_record (some (object fields)) = fields
as_record _ = no_fields

module _ (before : String → String → Bool) where
  unfoldable pub insert_field : String → Json → Fields → Fields
  insert_field key value no_fields = field key value no_fields
  insert_field key value (field k v rest) =
      let after = insert_field key value rest in
      if before k key then field k v after else field key value (field k v rest)

  unfoldable mutual
    pub canonicalize : Json → Json
    canonicalize null = null
    canonicalize (boolean b) = boolean b
    canonicalize (natural n) = natural n
    canonicalize (negative n) = negative n
    canonicalize (other_number t) = other_number t
    canonicalize (text t) = text t
    canonicalize (array items) = array (canonicalize_items items)
    canonicalize (object fields) = object (canonicalize_fields fields)

    pub canonicalize_items : Items → Items
    canonicalize_items no_items = no_items
    canonicalize_items (item v rest) = item (canonicalize v) (canonicalize_items rest)

    pub canonicalize_fields : Fields → Fields
    canonicalize_fields no_fields = no_fields
    canonicalize_fields (field key value rest) =
        insert_field key (canonicalize value) (canonicalize_fields rest)
