-- ===== src/Protocol/Requests/Rules.antt =====
-- Rules for what a chain of early returns ensures of the request that it accepts.
use mod_playerbots_mcp.Base.{
  ℕ, ◌≤◌, ◌<◌, ◌≡◌, refl, subst, Bool, true, false, Option, none, some, Bytes, insert, ◌⊎◌, arith,
  Option-cases, inl, inr,
}
use mod_playerbots_mcp.Protocol.Json.Objects.{FlatJsonFields}
use mod_playerbots_mcp.Protocol.Requests.Fields.{
  unsigned_field, is_valid_guid, store_uint32, guid_field,
}
use mod_playerbots_mcp.Protocol.Requests.Operations.{or_bad_anomaly_limit}
use mod_playerbots_mcp.Protocol.Requests.Outcome.{
  Outcome, accepted, rejected, require, or_reject, ◌>>=◌, ◌>>◌,
}
use mod_playerbots_mcp.Protocol.Types.{ErrorCode, ProtocolError, Request, max_uint32}

-- If the chain accepts, its request has the property.
pub data Ensures (P : Request → Type 0) : Outcome Request → Type 0 where
  returns : {r : Request} → P r → Ensures P (accepted r)
  refuses : {e : ProtocolError} → Ensures P (rejected e)

guid_field_bounds :
    (fields : FlatJsonFields) (name : Bytes) (g : ℕ)
    → guid_field fields name ≡ accepted g
    → (0 < g) × (g ≤ max_uint32)
unfolding guid_field is_valid_guid ◌>>=◌ require or_reject
guid_field_bounds fields name g e = ground arith

pub store_uint32_stored :
    (request : Request) (fields : FlatJsonFields) (name : Bytes) (allow_zero : Bool) (r : Request)
    → store_uint32 request fields name allow_zero ≡ some r
    → (v : ℕ) × (r ≡ record request { numbers = insert name v request.numbers })
      × (v ≤ max_uint32)
      × ((allow_zero ≡ true) ⊎ (0 < v))
unfolding store_uint32
store_uint32_stored request fields name allow_zero r e =
    elim (Option-cases (unsigned_field fields name)) [
      | inl missing ↦ cc (rw (missing, store_uint32) at e)
      | inr (v, found) ↦ (v, ground arith, ground arith, ground arith)
    ]

module _ {P : Request → Type 0} where
  pub Ensures-accepted : {o : Outcome Request} {r : Request} → Ensures P o → o ≡ accepted r → P r
  Ensures-accepted (returns h) e = subst P (cc) h
  Ensures-accepted refuses e = cc

  pub require-Ensures :
      (b : Bool) (code : ErrorCode) {k : Outcome Request}
      → (b ≡ true → Ensures P k)
      → Ensures P (require b code >> k)
  unfolding ◌>>=◌ require
  require-Ensures true code h = h refl
  require-Ensures false code h = refuses

  pub or_reject-Ensures :
      {A : Type 0} (o : Option A) (code : ErrorCode) {k : A → Outcome Request}
      → ((a : A) → o ≡ some a → Ensures P (k a))
      → Ensures P (or_reject o code >>= k)
  unfolding ◌>>=◌ or_reject
  or_reject-Ensures none code h = refuses
  or_reject-Ensures (some a) code h = h a refl

  pub or_reject_last-Ensures :
      (o : Option Request) (code : ErrorCode)
      → ((r : Request) → o ≡ some r → P r)
      → Ensures P (or_reject o code)
  unfolding or_reject
  or_reject_last-Ensures none code h = refuses
  or_reject_last-Ensures (some r) code h = returns (h r refl)

  pub bind-Ensures :
      {A : Type 0} (m : Outcome A) {k : A → Outcome Request}
      → ((a : A) → m ≡ accepted a → Ensures P (k a))
      → Ensures P (m >>= k)
  unfolding ◌>>=◌
  bind-Ensures (accepted a) h = h a refl
  bind-Ensures (rejected e) h = refuses

  pub guid-Ensures :
      (fields : FlatJsonFields) (name : Bytes) {k : ℕ → Outcome Request}
      → ((g : ℕ) → (0 < g) × (g ≤ max_uint32) → Ensures P (k g))
      → Ensures P (guid_field fields name >>= k)
  guid-Ensures fields name h =
      bind-Ensures (guid_field fields name) (λ g e. h g (guid_field_bounds fields name g e))

  -- A number that is stored fits 32 bits, and is zero only where that is allowed.
  pub store-Ensures :
      (request : Request) (fields : FlatJsonFields) (name : Bytes) (allow_zero : Bool)
      (code : ErrorCode) (k : Request → Outcome Request)
      → ((v : ℕ)
          → v ≤ max_uint32
          → ((allow_zero ≡ true) ⊎ (0 < v))
          → Ensures P (k (record request { numbers = insert name v request.numbers })))
      → Ensures P (or_reject (store_uint32 request fields name allow_zero) code >>= k)
  store-Ensures request fields name allow_zero code k h =
      or_reject-Ensures (store_uint32 request fields name allow_zero) code λ r e.
        let (v, same, fits, positive) = store_uint32_stored request fields name allow_zero r e in
        rw same (h v fits positive)

  pub anomaly_limit-Ensures :
      (b : Bool) {k : Outcome Request}
      → (b ≡ true → Ensures P k)
      → Ensures P (or_bad_anomaly_limit b >> k)
  unfolding ◌>>=◌ or_bad_anomaly_limit
  anomaly_limit-Ensures true h = h refl
  anomaly_limit-Ensures false h = refuses

module _ {P Q : Request → Type 0} where
  -- What a first step ensures is known to the second.
  pub then-Ensures :
      (m : Outcome Request) {k : Request → Outcome Request}
      → Ensures P m
      → ((r : Request) → P r → Ensures Q (k r))
      → Ensures Q (m >>= k)
  unfolding ◌>>=◌
  then-Ensures m (returns h) later = later _ h
  then-Ensures m refuses later = refuses

  pub Ensures-map : {o : Outcome Request} → ((r : Request) → P r → Q r) → Ensures P o → Ensures Q o
  Ensures-map f (returns h) = returns (f _ h)
  Ensures-map f refuses = refuses
