-- ===== src/Util/Version.antt =====
-- util/version.go: an actor version is three or four 32-bit integers, written with dots.
pub mod RoundTrip
use maos_core.Common.{
  ◌++◌, ◌==◌, ltb, Bool, ◌||◌, List, [], ◌∷◌, ℕ, suc, Option, none, some, if◌then◌else◌, length,
}
use maos_core.Common.Int.{ℤ}
use maos_core.Common.Decimal.{Text, format_int, parse_int}

-- The loop of the string builder, from index `i`.
write_from : ℕ → List ℤ → Text
write_from i [] = []
write_from i (v ∷ vs) = (if ltb 0 i then b'.' ∷ [] else []) ++ format_int v ++ write_from (suc i) vs

unfoldable pub serialize_actor_version : List ℤ → Option Text
unfolding write_from
serialize_actor_version [] = none
serialize_actor_version (v ∷ vs) = some (write_from 0 (v ∷ vs))

-- strings.Split at a one-byte separator.
push : ℕ → List Text → List Text
push c [] = (c ∷ []) ∷ []
push c (w ∷ ws) = (c ∷ w) ∷ ws

split : ℕ → Text → List Text
unfolding push
split sep [] = [] ∷ []
split sep (c ∷ cs) = let rest = split sep cs in if c == sep then [] ∷ rest else push c rest

-- The loop over the parts; a part that is no 32-bit integer ends it.
parse_parts : List Text → Option (List ℤ)
parse_parts [] = some []
parse_parts (part ∷ parts) = elim (parse_int 32 part) [
  | none ↦ none
  | some num ↦ elim (parse_parts parts) [ none ↦ none | some nums ↦ some (num ∷ nums) ]
]

parse_version : List Text → Option (List ℤ)
unfolding parse_parts
parse_version parts =
    if ltb (length parts) 3 || ltb 4 (length parts) then none else parse_parts parts

unfoldable pub deserialize_actor_version : Option Text → Option (List ℤ)
unfolding split parse_version
deserialize_actor_version none = none
deserialize_actor_version (some version) = parse_version (split b'.' version)
