-- ===== src/Invocation/Codec.antt =====
-- JSON objects as the manager handles them: keys with values, where a value may be null. Encoding
-- is the JSON library's, so it is a parameter.
use mathlib.Core.Option
use maos_core.Common.{List, [], ◌∷◌, Option, none, some, if◌then◌else◌, String, str_eq, ◌≡◌}
use maos_core.Models.{Bytes}

abbrev pub Object : Type 0 → Type 0
Object V = List (String × Option V)

-- json.Marshal and json.Unmarshal; `none` is an error.
pub record Codec (V : Type 0) : Type 0 where
  pub marshal : Object V → Option Bytes
  pub unmarshal : Bytes → Option (Object V)

-- What is written can be read back.
abbrev pub RoundTrips : (V : Type 0) → Codec V → Type 0
RoundTrips V codec =
    (o : Object V) (b : Bytes) → codec.marshal o ≡ some b → codec.unmarshal b ≡ some o

module _ {V : Type 0} where
  -- `m[key]`, where a missing key and a null value are both nil.
  unfoldable pub get_key : String → Object V → Option V
  get_key key [] = none
  get_key key ((k, v) ∷ rest) = if str_eq k key then v else get_key key rest

  -- `m[key] = value`.
  unfoldable pub set_key : String → V → Object V → Object V
  set_key key value [] = (key, some value) ∷ []
  set_key key value ((k, v) ∷ rest) =
      let rest' = set_key key value rest in
      if str_eq k key then (key, some value) ∷ rest else (k, v) ∷ rest'

  -- parseJson: no data is no object and no error. The outer `none` is the error.
  unfoldable pub parse_json : Codec V → Option Bytes → Option (Option (Object V))
  parse_json codec none = some none
  parse_json codec (some data') = Option.map some (codec.unmarshal data')
