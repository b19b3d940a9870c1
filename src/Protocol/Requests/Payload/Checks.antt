-- ===== src/Protocol/Requests/Payload/Checks.antt =====
-- `ParseCheck` keeps the target of the request, and accepts known conditions only.
use mod_playerbots_mcp.Base.{
  ℕ, ◌≡◌, refl, ap, ◌∙◌, sym, subst, inl, inr, Bool, true, false, List, [], ◌∷◌, Bytes, insert,
  is_some, Bool-cases,
}
use mod_playerbots_mcp.Protocol.Json.Objects.{FlatJsonFields}
use mod_playerbots_mcp.Protocol.Requests.Check.{
  parse_check, condition_fields, store_condition_numbers, store_if, store_uint64s, store_texts,
}
use mod_playerbots_mcp.Protocol.Requests.Fields.{has_field, store_uint32}
use mod_playerbots_mcp.Protocol.Requests.Operations.{parse_check_operation}
use mod_playerbots_mcp.Protocol.Requests.Outcome.{Outcome, ◌>>=◌}
use mod_playerbots_mcp.Protocol.Requests.Rules.{
  Ensures, returns, require-Ensures, or_reject-Ensures, guid-Ensures, then-Ensures, Ensures-map,
  or_reject_last-Ensures, store_uint32_stored,
}
use mod_playerbots_mcp.Protocol.Types.{Request, Operation}
use mod_playerbots_mcp.Protocol.Requests.Payload.Admits.{Serves, IsGuid, IsAdmitted, Admits}

-- What storing values leaves alone.
record KeepsTarget (r r' : Request) : Type 0 where
  operation_same : r'.operation ≡ r.operation
  bot_same : r'.bot_guid ≡ r.bot_guid
  condition_same : r'.condition ≡ r.condition
  id_same : r'.request_id ≡ r.request_id

KeepsTarget-self : (r : Request) → KeepsTarget r r
KeepsTarget-self r = record {
  operation_same = refl;
  bot_same = refl;
  condition_same = refl;
  id_same = refl;
}

KeepsTarget-trans : (r s t : Request) → KeepsTarget r s → KeepsTarget s t → KeepsTarget r t
KeepsTarget-trans r s t h k = record {
  operation_same = k.operation_same ∙ h.operation_same;
  bot_same = k.bot_same ∙ h.bot_same;
  condition_same = k.condition_same ∙ h.condition_same;
  id_same = k.id_same ∙ h.id_same;
}

abbrev Keeps : Request → Outcome Request → Type 0
Keeps r o = Ensures (KeepsTarget r) o

module _ (r : Request) where
  stored-Keeps :
      (n : List (Bytes × ℕ)) (t : List (Bytes × Bytes))
      → KeepsTarget r (record r { numbers = n; strings = t })
  stored-Keeps n t = record {
    operation_same = refl;
    bot_same = refl;
    condition_same = refl;
    id_same = refl;
  }

  -- A value stored, and then whatever keeps the target.
  after_storing :
      {o : Outcome Request} (n : List (Bytes × ℕ)) (t : List (Bytes × Bytes))
      → Keeps (record r { numbers = n; strings = t }) o
      → Keeps r o
  after_storing n t = Ensures-map λ u. KeepsTarget-trans r _ u (stored-Keeps n t)

  then-Keeps :
      (m : Outcome Request) {k : Request → Outcome Request}
      → Keeps r m
      → ((s : Request) → Keeps s (k s))
      → Keeps r (m >>= k)
  then-Keeps m h later =
      then-Ensures m h λ s kept. Ensures-map (λ t. KeepsTarget-trans r s t kept) (later s)

module _ (fields : FlatJsonFields) where
  store_if-Keeps :
      (test : Bool) (name : Bytes) (allow_zero : Bool) (r : Request)
      → Keeps r (store_if test fields name allow_zero r)
  unfolding store_if
  store_if-Keeps true name allow_zero r =
      or_reject_last-Ensures (store_uint32 r fields name allow_zero) _ λ s e.
        let (v, same, _, _) = store_uint32_stored r fields name allow_zero s e in
        rw same (stored-Keeps r _ _)
  store_if-Keeps false name allow_zero r = returns (KeepsTarget-self r)

  store_condition_numbers-Keeps :
      (condition : Bytes) (r : Request) → Keeps r (store_condition_numbers condition fields r)
  unfolding store_condition_numbers
  store_condition_numbers-Keeps condition r = then-Keeps r _ (store_if-Keeps _ _ _ _) λ r₁.
      then-Keeps r₁ _ (store_if-Keeps _ _ _ _) λ r₂. then-Keeps r₂ _ (store_if-Keeps _ _ _ _) λ r₃.
        then-Keeps r₃ _ (store_if-Keeps _ _ _ _) λ r₄.
          then-Keeps r₄ _ (store_if-Keeps _ _ _ _)
            λ r₅. then-Keeps r₅ _ (store_if-Keeps _ _ _ _) λ r₆. store_if-Keeps _ _ _ _

  store_uint64s-Keeps : (names : List Bytes) (r : Request) → Keeps r (store_uint64s names fields r)
  unfolding store_uint64s
  store_uint64s-Keeps [] r = returns (KeepsTarget-self r)
  store_uint64s-Keeps (name ∷ names) r = elim (Bool-cases (has_field fields name)) [
    | inl there ↦ rw there (
        or_reject-Ensures _ _
          λ v _. after_storing r (insert name v r.numbers) r.strings (store_uint64s-Keeps names _))
    | inr missing ↦ rw missing (store_uint64s-Keeps names r)
  ]

  store_texts-Keeps : (names : List Bytes) (r : Request) → Keeps r (store_texts names fields r)
  unfolding store_texts
  store_texts-Keeps [] r = returns (KeepsTarget-self r)
  store_texts-Keeps (name ∷ names) r = elim (Bool-cases (has_field fields name)) [
    | inl there ↦ rw there (
        or_reject-Ensures _ _ λ v _.
          require-Ensures _ _
            λ _. after_storing r r.numbers (insert name v r.strings) (store_texts-Keeps names _))
    | inr missing ↦ rw missing (store_texts-Keeps names r)
  ]

  check-IsAdmitted :
      (r : Request)
      → r.operation ≡ Operation.check
      → IsGuid r.bot_guid
      → is_some (condition_fields r.condition) ≡ true
      → IsAdmitted r
  check-IsAdmitted r same guid known = subst (λ o. Admits o r) (sym same) (guid, known)

  parse_check-admits :
      (q : Request)
      → q.operation ≡ Operation.check
      → IsGuid q.bot_guid
      → Ensures (Serves Operation.check q) (parse_check fields q)
  unfolding parse_check
  parse_check-admits q is_check guid = or_reject-Ensures _ _ λ condition _.
      or_reject-Ensures _ _ λ wanted known. require-Ensures _ _ λ _.
        then-Ensures _ (store_condition_numbers-Keeps _ _) λ r₁ h₁.
          then-Ensures _ (store_uint64s-Keeps _ _) λ r₂ h₂.
            then-Ensures _ (store_texts-Keeps _ _) λ r₃ h₃. require-Ensures _ _ λ _.
              require-Ensures _ _ λ _.
                let same : r₃.operation ≡ Operation.check =
                  h₃.operation_same ∙ h₂.operation_same ∙ h₁.operation_same ∙ is_check in
                let bot = h₃.bot_same ∙ h₂.bot_same ∙ h₁.bot_same in
                let named = h₃.condition_same ∙ h₂.condition_same ∙ h₁.condition_same in
                returns (
                  check-IsAdmitted r₃ same (rw bot guid) (rw named (ap is_some known)),
                  h₃.id_same ∙ h₂.id_same ∙ h₁.id_same,
                  same,
                )

  pub parse_check_operation-admits :
      (q : Request) → Ensures (Serves Operation.check q) (parse_check_operation fields q)
  unfolding parse_check_operation
  parse_check_operation-admits q = guid-Ensures _ _ λ g h. parse_check-admits _ refl h
