-- ===== src/Tests/Loops.antt =====
-- The loop over the members of an object, run to its end.
use mod_playerbots_mcp.Base.{bytes, Bytes, Option, some, [], ◌∷◌}
use mod_playerbots_mcp.Protocol.Json.Fuel.Ends.{Ends}
use mod_playerbots_mcp.Protocol.Json.Objects.{Fields, unsigned_value}

-- `"a":1,"a":2}` behind a blank.
abbrev twice : Bytes
twice = bytes " \"a\":1,\"a\":2}"

abbrev kept_first : Option Fields
kept_first =
    some (record { fields = (bytes "a", unsigned_value 1) ∷ []; duplicates = bytes "a" ∷ [] })
