-- ===== src/Protocol/Json/Fuel/Ends.antt =====
-- The loop of `Parse` over the members of an object comes to its end.
use mod_playerbots_mcp.Base.{◌≡◌, Bool, Option, none, some, Bytes}
use mod_playerbots_mcp.Protocol.Json.Objects.{
  FlatJsonValue, Fields, parse_member, comma, stop, member_end, emplace,
}

-- The course of the loop, with no fuel in it: from the fields that are read and the text that is left to
-- what is returned. It is finite, as every value of a data type is.
pub data Ends (keep : Bool) : Fields → Bytes → Option Fields → Type 0 where
  refuses : {f : Fields} {s : Bytes} → parse_member s ≡ none → Ends keep f s none
  repeats :
      {f : Fields} {s key rest : Bytes} {v : FlatJsonValue}
      → parse_member s ≡ some (key, v, rest)
      → emplace keep key v f ≡ none
      → Ends keep f s none
  stops :
      {f g : Fields} {s key rest : Bytes} {v : FlatJsonValue} {o : Option Fields}
      → parse_member s ≡ some (key, v, rest)
      → emplace keep key v f ≡ some g
      → member_end g rest ≡ stop o
      → Ends keep f s o
  goes_on :
      {f g : Fields} {s key rest next : Bytes} {v : FlatJsonValue} {o : Option Fields}
      → parse_member s ≡ some (key, v, rest)
      → emplace keep key v f ≡ some g
      → member_end g rest ≡ comma next
      → Ends keep g next o
      → Ends keep f s o
