-- ===== src/Tests/Connections.antt =====
-- Connections that bring the payloads of the parser's tests.
use mod_playerbots_mcp.Base.{◌≡◌, ◌⊎◌, length, refl, true, false, [], ◌∷◌, none, some, bytes}
use mod_playerbots_mcp.Protocol.Print.{to_string}
use mod_playerbots_mcp.Protocol.Requests.Payload.{parse_request_payload}
use mod_playerbots_mcp.Protocol.Responses.{failure}
use mod_playerbots_mcp.Protocol.Types.{bot_not_found}
use mod_playerbots_mcp.Server.{Connection, handle_payload, handle_connection, timed_out, received}
use mod_playerbots_mcp.Server.Loop.{
  Round, Loop, run, leave, serve_connection, close, Serves, run-Serves,
}
use mod_playerbots_mcp.Server.Silence.{StaysSilent, IsAnswered, handle_connection-answers}
use mod_playerbots_mcp.Server.Answers.{AnswersWith, due, handle_payload-answers}
use mod_playerbots_mcp.Server.Audits.{AuditsRecoveriesOnly, handle_payload-unauthenticated}
use mod_playerbots_mcp.Tests.Payloads.{
  digest, secret, recover_payload, recover_fields, parse-recover_payload, digest-IsDigest,
  wrong_token,
}

-- A handler that finds no bot, and one that always throws, under a server that stops.
abbrev pub serving : Connection
serving = record {
  header = timed_out;
  payload = λ len. timed_out;
  stopping_at_header = false;
  stopping_at_payload = false;
  stopping_at_dispatch = false;
  now = 1000;
  handler = λ request. some (failure bot_not_found []);
}

abbrev throwing : Connection
throwing = record serving { stopping_at_dispatch = true; handler = λ request. none }

serving-audits : AuditsRecoveriesOnly serving.handler
unfolding failure
serving-audits request r a h k = cc

handle_payload-answers_example :
    AnswersWith
      (handle_payload digest to_string serving secret recover_payload)
      (due serving (parse_request_payload digest recover_payload secret))
handle_payload-answers_example =
    handle_payload-answers digest to_string serving secret recover_payload

handle_payload-unauthenticated_example :
    handle_payload digest to_string serving (digest (bytes "guess")) recover_payload
    ≡ handle_payload digest to_string throwing (digest (bytes "guess")) recover_payload
handle_payload-unauthenticated_example =
    handle_payload-unauthenticated digest to_string serving throwing (digest (bytes "guess"))
      recover_payload recover_fields digest-IsDigest (digest-IsDigest (bytes "guess"))
      parse-recover_payload wrong_token refl

-- The peer sends the length of the payload, and the payload.
abbrev sending : Connection
sending = record serving {
  header = received (0, 0, 0, length recover_payload);
  payload = λ len. received recover_payload;
}

handle_connection-answers_example :
    (StaysSilent sending × (handle_connection digest to_string sending secret ≡ []))
    ⊎ IsAnswered (handle_connection digest to_string sending secret)
handle_connection-answers_example = handle_connection-answers digest to_string sending secret

-- Two connections, of which the server stops behind the second one.
abbrev round : Round
round = record {
  stopping_at_top = false;
  accepts = true;
  stopping_behind_accept = false;
  connection = sending;
}

abbrev idle_loop : Loop
idle_loop = record { running = true; active_socket = none; open_sockets = []; served = [] }

run-Serves_example :
    Serves digest to_string secret
      (round ∷ record round { stopping_behind_accept = true } ∷ round ∷ [])
      idle_loop
      (run digest to_string secret 0
        (round ∷ record round { stopping_behind_accept = true } ∷ round ∷ [])
        idle_loop)
run-Serves_example =
    run-Serves digest to_string secret 0
      (round ∷ record round { stopping_behind_accept = true } ∷ round ∷ []) idle_loop refl

two_rounds_open :
    (run digest to_string secret 0
      (round ∷ record round { stopping_behind_accept = true } ∷ round ∷ [])
      idle_loop).0.open_sockets
    ≡ 1 ∷ []
unfolding run leave serve_connection close
two_rounds_open = refl
