-- ===== src/Prelude/Json.antt =====
-- What `JSON.parse` returns, over the numbers `N`; an object's fields by name.
use mathlib.Core.Bool.{Bool}
use mathlib.Core.Option.{Option, none, some}
use opcua_light_server.Prelude.Tests.{if◌then◌else◌}
use opcua_light_server.Prelude.Texts.{Text, text_eq}

mutual
  pub data Json (N : Type 0) : Type 0 where
    null : Json N
    bool : Bool → Json N
    num : N → Json N
    str : Text → Json N
    arr : Items N → Json N
    obj : Fields N → Json N

  pub data Items (N : Type 0) : Type 0 where
    nil : Items N
    cons : Json N → Items N → Items N

  pub data Fields (N : Type 0) : Type 0 where
    end : Fields N
    field : Text → Json N → Fields N → Fields N

-- `object[name]`: `none` is `undefined`.
unfoldable pub get : {N : Type 0} → Text → Fields N → Option (Json N)
get name end = none
get name (field k v fs) = if text_eq k name then some v else get name fs
