-- ===== src/Protocol/Requests/Fields.antt =====
-- The typed reads of a flat object, and the checks on single values.
use mod_playerbots_mcp.Base.{
  ℕ, ◌^◌, ◌%◌, Bool, ◌&&◌, ◌||◌, not, List, ◌∷◌, Option, none, some, Bytes, bytes, all, length, ltb,
  leb, ◌==◌, if◌then◌else◌, is_some, lookup, insert, contains,
}
use mod_playerbots_mcp.Protocol.Json.Objects.{FlatJsonValue, FlatJsonFields}
use mod_playerbots_mcp.Protocol.Json.Text.{is_digit}
use mod_playerbots_mcp.Protocol.Requests.Outcome.{
  Outcome, accepted, require, or_reject, ◌>>=◌, ◌>>◌,
}
use mod_playerbots_mcp.Protocol.Types.{
  Request, invalid_guid, max_uint32, activity_lease_token_hex_length,
}

abbrev pub has_field : FlatJsonFields → Bytes → Bool
has_field fields name = is_some (lookup name fields)

-- Every required field is there, and every field is a required or an optional one.
unfoldable pub has_exact_fields : FlatJsonFields → List Bytes → List Bytes → Bool
has_exact_fields fields required optional =
    all (has_field fields) required
    && all
        (λ (entry : Bytes × FlatJsonValue). contains entry.0 required || contains entry.0 optional)
        fields

as_unsigned : Option FlatJsonValue → Option ℕ
as_unsigned none = none
as_unsigned (some v) = if v.is_unsigned then some v.number else none

as_string : Option FlatJsonValue → Option Bytes
as_string none = none
as_string (some v) = if v.is_string then some v.text else none

unfoldable pub unsigned_field : FlatJsonFields → Bytes → Option ℕ
unfolding as_unsigned
unsigned_field fields name = as_unsigned (lookup name fields)

unfoldable pub string_field : FlatJsonFields → Bytes → Option Bytes
unfolding as_string
string_field fields name = as_string (lookup name fields)

unfoldable pub is_valid_guid : ℕ → Bool
is_valid_guid value = ltb 0 value && leb value max_uint32

unfoldable pub is_activity_lease_token : Bytes → Bool
is_activity_lease_token token =
    length token == activity_lease_token_hex_length
    && all (λ c. is_digit c || (leb b'a' c && leb c b'f')) token

-- `StoreUInt32`: `none` where it returns false, and else the request that it leaves.
unfoldable pub store_uint32 : Request → FlatJsonFields → Bytes → Bool → Option Request
store_uint32 request fields name allow_zero = elim (unsigned_field fields name) [
  | none ↦ none
  | some value ↦
      if ltb max_uint32 value || (not allow_zero && value == 0)
      then none
      else some (record request { numbers = insert name value request.numbers })
]

unfoldable pub common_fields : List Bytes → List Bytes
common_fields operation_fields =
    bytes "schemaVersion" ∷ bytes "requestId" ∷ bytes "token" ∷ bytes "operation" ∷ operation_fields

-- A GUID field as the operations read it: missing, zero or too large, it is an invalid GUID.
unfoldable pub guid_field : FlatJsonFields → Bytes → Outcome ℕ
guid_field fields name = do
  value ← or_reject (unsigned_field fields name) invalid_guid
  require (is_valid_guid value) invalid_guid
  accepted (value % 2 ^ 32)
