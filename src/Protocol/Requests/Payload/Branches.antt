-- ===== src/Protocol/Requests/Payload/Branches.antt =====
-- Each branch of the parser, except that of `check`, accepts only requests that its operation admits.
use mod_playerbots_mcp.Base.{
  ◌≡◌, refl, ◌⊎◌, inl, inr, true, List, [], Bytes, bytes, if◌then◌else◌, insert, lookup,
  lookup-insert, value_or, str_eq, str_eq→eq, str_eq_self, arith, Bool-cases, Option-cases,
}
use mod_playerbots_mcp.Protocol.Json.Objects.{FlatJsonFields}
use mod_playerbots_mcp.Protocol.Requests.Fields.{has_field, string_field, is_activity_lease_token}
use mod_playerbots_mcp.Protocol.Requests.Operations.{
  parse_status, parse_list, parse_inspect, parse_anomalies, parse_command, parse_recover,
  parse_set_skill, parse_teleport_to_game_object, parse_hold_activity, store_lease_token,
  parse_inspect_activity_lease, parse_release_activity, parse_gm_command, parse_reload_config,
}
use mod_playerbots_mcp.Protocol.Requests.Outcome.{accepted, require, or_reject, ◌>>=◌}
use mod_playerbots_mcp.Protocol.Requests.Rules.{
  Ensures, returns, require-Ensures, or_reject-Ensures, bind-Ensures, guid-Ensures, store-Ensures,
  anomaly_limit-Ensures,
}
use mod_playerbots_mcp.Protocol.Types.{Request, Operation}
use mod_playerbots_mcp.Protocol.Requests.Payload.Admits.{Serves}

module _ (fields : FlatJsonFields) (q : Request) where
  pub parse_status-admits : Ensures (Serves Operation.status q) (parse_status fields q)
  unfolding parse_status
  parse_status-admits = require-Ensures _ _ λ _. returns (tt, refl, refl)

  pub parse_list-admits : Ensures (Serves Operation.list q) (parse_list fields q)
  unfolding parse_list
  parse_list-admits = require-Ensures _ _ λ _. or_reject-Ensures _ _ λ g _.
      require-Ensures _ _ λ fits. or_reject-Ensures _ _ λ limit _.
        require-Ensures _ _
          λ bounded. returns ((omega arith, ground arith, ground arith), refl, refl)

  pub parse_inspect-admits : Ensures (Serves Operation.inspect q) (parse_inspect fields q)
  unfolding parse_inspect
  parse_inspect-admits = require-Ensures _ _ λ _. guid-Ensures _ _ λ g h. returns (h, refl, refl)

  pub parse_anomalies-admits : Ensures (Serves Operation.anomalies q) (parse_anomalies fields q)
  unfolding parse_anomalies
  parse_anomalies-admits =
      require-Ensures _ _
        λ _. anomaly_limit-Ensures _ λ bounded. returns ((ground arith, ground arith), refl, refl)

  pub parse_command-admits : Ensures (Serves Operation.command q) (parse_command fields q)
  unfolding parse_command
  parse_command-admits = require-Ensures _ _ λ _. guid-Ensures _ _ λ g hg. guid-Ensures _ _ λ m hm.
      or_reject-Ensures _ _
        λ command _. require-Ensures _ _ λ given. returns ((hg, hm, ground arith), refl, refl)

  pub parse_recover-admits : Ensures (Serves Operation.recover q) (parse_recover fields q)
  unfolding parse_recover
  parse_recover-admits = require-Ensures _ _ λ _. guid-Ensures _ _ λ g hg.
      or_reject-Ensures _ _
        λ destination _. require-Ensures _ _ λ home. returns ((hg, str_eq→eq _ _ home), refl, refl)

  pub parse_set_skill-admits : Ensures (Serves Operation.set_skill q) (parse_set_skill fields q)
  unfolding parse_set_skill str_eq
  parse_set_skill-admits = require-Ensures _ _ λ _. guid-Ensures _ _ λ g hg.
      store-Ensures _ _ _ _ _ _ λ skill hs ps. store-Ensures _ _ _ _ _ _ λ value hv pv.
        store-Ensures _ _ _ _ _ _ λ maximum hm pm. require-Ensures _ _ λ bounded.
          let stored =
            insert (bytes "maximum") maximum
              (insert (bytes "value") value (insert (bytes "skillId") skill q.numbers)) in
          let e₁ : value_or 0 (lookup (bytes "skillId") stored) ≡ skill = simp lookup-insert in
          let e₂ : value_or 0 (lookup (bytes "value") stored) ≡ value = simp lookup-insert in
          let e₃ : value_or 0 (lookup (bytes "maximum") stored) ≡ maximum = simp lookup-insert in
          returns (
            (
              hg,
              (ground arith, omega arith),
              ground arith,
              ground arith,
              ground arith,
              ground arith,
            ),
            refl,
            refl,
          )

  pub parse_teleport-admits :
      Ensures (Serves Operation.teleport_to_game_object q) (parse_teleport_to_game_object fields q)
  unfolding parse_teleport_to_game_object
  parse_teleport-admits = require-Ensures _ _ λ _. guid-Ensures _ _ λ g hg.
      store-Ensures _ _ _ _ _ _ λ entry he pe.
        let e : value_or 0
              (lookup (bytes "gameObjectEntry") (insert (bytes "gameObjectEntry") entry q.numbers))
            ≡ entry =
          simp (lookup-insert, str_eq_self) in
        returns ((hg, (ground arith, omega arith)), refl, refl)

  pub parse_inspect_lease-admits :
      Ensures (Serves Operation.inspect_activity_lease q) (parse_inspect_activity_lease fields q)
  unfolding parse_inspect_activity_lease
  parse_inspect_lease-admits =
      require-Ensures _ _ λ _. guid-Ensures _ _ λ g h. returns (h, refl, refl)

  pub parse_gm_command-admits : Ensures (Serves Operation.gm_command q) (parse_gm_command fields q)
  unfolding parse_gm_command
  parse_gm_command-admits = require-Ensures _ _ λ _. or_reject-Ensures _ _ λ command _.
      require-Ensures _ _
        λ given. require-Ensures _ _ λ passed. returns ((ground arith, ground arith), refl, refl)

  pub parse_reload_config-admits :
      Ensures (Serves Operation.reload_config q) (parse_reload_config fields q)
  unfolding parse_reload_config
  parse_reload_config-admits = require-Ensures _ _ λ _. returns (tt, refl, refl)

store_lease_token-stores :
    (fields : FlatJsonFields) (r r' : Request)
    → store_lease_token fields r ≡ accepted r'
    → (s : List (Bytes × Bytes)) × (r' ≡ record r { strings = s })
      × (is_activity_lease_token (value_or [] (lookup (bytes "leaseToken") s)) ≡ true)
unfolding store_lease_token ◌>>=◌ require or_reject
store_lease_token-stores fields r r' e =
    elim (Option-cases (string_field fields (bytes "leaseToken"))) [
      | inl missing ↦ cc (rw (missing, store_lease_token) at e)
      | inr (t, found) ↦
          let read : value_or []
                (lookup (bytes "leaseToken") (insert (bytes "leaseToken") t r.strings))
              ≡ t =
            simp (lookup-insert, str_eq_self) in
          (insert (bytes "leaseToken") t r.strings, ground arith, ground arith)
    ]

module _ (fields : FlatJsonFields) (q : Request) where
  pub parse_release-admits :
      Ensures (Serves Operation.release_activity q) (parse_release_activity fields q)
  unfolding parse_release_activity
  parse_release-admits = require-Ensures _ _ λ _. guid-Ensures _ _ λ g hg. bind-Ensures _ λ r e.
      let (s, same, token) = store_lease_token-stores fields q r e in
      rw same (returns ((hg, token), refl, refl))

  -- The token of a request that had no strings: the stored one, or none.
  lease_token_choice :
      (r r' : Request)
      → r.strings ≡ []
      → (if has_field fields (bytes "leaseToken") then store_lease_token fields r else accepted r)
        ≡ accepted r'
      → (s : List (Bytes × Bytes)) × (r' ≡ record r { strings = s })
        × ((value_or [] (lookup (bytes "leaseToken") s) ≡ [])
            ⊎ (is_activity_lease_token (value_or [] (lookup (bytes "leaseToken") s)) ≡ true))
  lease_token_choice r r' none_yet e = elim (Bool-cases (has_field fields (bytes "leaseToken"))) [
    | inl named ↦
        let (s, same, token) = store_lease_token-stores fields r r' (rw named at e) in
        (s, same, inr token)
    | inr unnamed ↦
        let kept : accepted r ≡ accepted r' = rw unnamed at e in
        ([], cc, inl (unfold lookup in refl))
  ]

  pub parse_hold-admits :
      q.strings ≡ [] → Ensures (Serves Operation.hold_activity q) (parse_hold_activity fields q)
  unfolding parse_hold_activity
  parse_hold-admits none_yet = require-Ensures _ _ λ _. guid-Ensures _ _ λ g hg.
      store-Ensures _ _ _ _ _ _ λ seconds hs ps.
        let stored = insert (bytes "durationSeconds") seconds q.numbers in
        let e : value_or 0 (lookup (bytes "durationSeconds") stored) ≡ seconds =
          simp (lookup-insert, str_eq_self) in
        require-Ensures _ _ λ bounded. bind-Ensures _ λ r chosen.
          let (s, same, token) = lease_token_choice _ r none_yet chosen in
          rw same (returns ((hg, ground arith, ground arith, token), refl, refl))
