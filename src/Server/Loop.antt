-- ===== src/Server/Loop.antt =====
-- `Run` of src/Bot/MCP/PlayerbotVerificationServer.cpp: the loop that accepts connections and handles
-- one at a time. What each round meets is given.
use mod_playerbots_mcp.Base.{
  ℕ, ◌+◌, ◌≡◌, ◌⊎◌, subst, refl, ap, ◌∙◌, sym, Bool, true, false, List, [], ◌∷◌, ◌++◌, Option, none,
  some, Bytes, map, any, append-nil, append_assoc, if◌then◌else◌, ◌==◌, Bool-cases, inl, inr, arith,
}
use mod_playerbots_mcp.Protocol.Types.{TokenDigest}
use mod_playerbots_mcp.Server.{Connection, Effect, handle_connection}

-- One round: the loads of `stopping`, what `AcceptConnection` returns, and the connection.
pub record Round : Type 0 where
  pub stopping_at_top : Bool
  pub accepts : Bool
  pub stopping_behind_accept : Bool
  pub connection : Connection

pub record Loop : Type 0 where
  pub running : Bool
  -- The number of the round whose socket is the active one.
  pub active_socket : Option ℕ
  -- The rounds whose sockets are accepted and not closed.
  pub open_sockets : List ℕ
  -- What was logged and written in each connection, in order.
  pub served : List (List Effect)

-- The loop where it begins, and whether it has ended.
abbrev pub Progress : Type 0
Progress = Loop × Bool

-- `if (activeSocket == socket) activeSocket.reset()`.
unfoldable pub reset_active : ℕ → Option ℕ → Option ℕ
reset_active n none = none
reset_active n (some k) = if k == n then none else some k

unfoldable pub close : ℕ → List ℕ → List ℕ
close n [] = []
close n (k ∷ ks) = let rest = close n ks in if k == n then rest else k ∷ rest

-- The end of the loop.
unfoldable pub leave : Loop → Progress
leave s = (record s { running = false }, true)

module _ (digest : Bytes → TokenDigest) (print_float : ℕ → Bytes) (expected : TokenDigest) where
  -- The socket of round `n` is handled, shut down, closed and no longer the active one.
  unfoldable pub serve_connection : ℕ → Connection → Loop → Loop
  serve_connection n c s = record s {
    served = s.served ++ handle_connection digest print_float c expected ∷ [];
    open_sockets = close n s.open_sockets;
    active_socket = reset_active n s.active_socket;
  }

  -- The rounds from number `n` on, as many as are given; a server that is not stopped goes on.
  unfoldable pub run : ℕ → List Round → Loop → Progress
  run n [] s = (s, false)
  run n (r ∷ rounds) s =
      let waiting = record s { active_socket = some n } in
      let accepted = record waiting { open_sockets = n ∷ s.open_sockets } in
      let rest = run (n + 1) rounds (serve_connection n r.connection accepted) in
      if r.stopping_at_top
      then leave s
      else if r.accepts
      then if r.stopping_behind_accept then leave accepted else rest
      else leave waiting

  -- A round in which the loop ends.
  abbrev pub ends : Round → Bool
  ends r = if r.stopping_at_top then true else if r.accepts then r.stopping_behind_accept else true

  -- The rounds before the first one in which the loop ends.
  abbrev pub before_end : List Round → List Round
  before_end [] = []
  before_end (r ∷ rounds) = let rest = before_end rounds in if ends r then [] else r ∷ rest

  abbrev answer : Round → List Effect
  answer r = handle_connection digest print_float r.connection expected

  -- What the loop has done behind the given rounds.
  pub record Serves (rounds : List Round) (s : Loop) (done : Progress) : Type 0 where
    pub answers : done.0.served ≡ s.served ++ map answer (before_end rounds)
    pub ended : done.1 ≡ any ends rounds
    pub running : done.0.running ≡ (if any ends rounds then false else s.running)
    pub sockets :
        (done.0.open_sockets ≡ [])
        ⊎ ((n : ℕ) × (done.0.open_sockets ≡ n ∷ []) × (done.0.active_socket ≡ some n))

  -- A round in which the loop ends, with the socket of that round open or not.
  ends-Serves :
      (r : Round) (rounds : List Round) (s t : Loop)
      → ends r ≡ true
      → t.served ≡ s.served
      → ((t.open_sockets ≡ []) ⊎ ((n : ℕ) × (t.open_sockets ≡ n ∷ []) × (t.active_socket ≡ some n)))
      → Serves (r ∷ rounds) s (leave t)
  unfolding leave
  ends-Serves r rounds s t last same sockets = record {
    answers = rw (last, before_end) (same ∙ sym (append-nil s.served));
    ended = rw last refl;
    running = rw last refl;
    sockets = sockets;
  }

  -- A round that is served, before the others.
  goes-Serves :
      (n : ℕ) (r : Round) (rounds : List Round) (s t : Loop) (done : Progress)
      → ends r ≡ false
      → t.served ≡ s.served ++ answer r ∷ []
      → t.running ≡ s.running
      → Serves rounds t done
      → Serves (r ∷ rounds) s done
  goes-Serves n r rounds s t done more served same rest = record {
    answers =
        rw (more, before_end)
          (rest.answers
            ∙ ap (λ l. l ++ map answer (before_end rounds)) served
            ∙ append_assoc s.served (answer r ∷ []) (map answer (before_end rounds)));
    ended = rw more rest.ended;
    running = rw more (rest.running ∙ ap (λ b. if any ends rounds then false else b) same);
    sockets = rest.sockets;
  }

  -- The loop answers every connection that is accepted before the first round in which it ends, one behind
  -- the other and in order, and no other; it ends if and only if there is such a round, which is one where
  -- accepting fails or the server stops, and then no longer runs; and it leaves no socket open but
  -- that of the last round, which is then the active one.
  pub run-Serves :
      (n : ℕ) (rounds : List Round) (s : Loop)
      → s.open_sockets ≡ []
      → Serves rounds s (run n rounds s)
  unfolding run serve_connection close
  run-Serves n [] s none_open = record {
    answers = sym (append-nil s.served);
    ended = refl;
    running = refl;
    sockets = inl none_open;
  }
  run-Serves n (r ∷ rounds) s none_open =
      let waiting = record s { active_socket = some n } in
      let accepted = record waiting { open_sockets = n ∷ s.open_sockets } in
      let served = serve_connection n r.connection accepted in
      let ending =
        λ (done : Progress) (e : run n (r ∷ rounds) s ≡ done) (h : Serves (r ∷ rounds) s done).
          subst (Serves (r ∷ rounds) s) (sym e) h in
      elim (Bool-cases r.stopping_at_top) [
        | inl top ↦
            ending (leave s) (rw (top, run) refl)
              (ends-Serves r rounds s s (rw top refl) refl (inl none_open))
        | inr on ↦ elim (Bool-cases r.accepts) [
          | inr fails ↦
              ending (leave waiting) (rw (on, fails, run) refl)
                (ends-Serves r rounds s waiting (rw (on, fails) refl) refl (inl none_open))
          | inl accepts ↦ elim (Bool-cases r.stopping_behind_accept) [
            | inl stops ↦ ending (leave accepted) (rw (on, accepts, stops, run) refl) (
                ends-Serves r rounds s accepted (rw (on, accepts, stops) refl) refl
                  (inr (n, ap (λ l. n ∷ l) none_open, refl)))
            | inr goes ↦
                let closed : served.open_sockets ≡ [] = rw none_open (ground arith) in
                ending (run (n + 1) rounds served) (rw (on, accepts, goes, run) refl) (
                  goes-Serves n r rounds s served (run (n + 1) rounds served)
                    (rw (on, accepts, goes) refl) refl refl
                    (run-Serves (n + 1) rounds served closed))
          ]
        ]
      ]
