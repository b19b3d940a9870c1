-- ===== src/WorldThread/Console/Output.antt =====
-- What `BuildGmCommandResponse` keeps of the output of a console command.
use mod_playerbots_mcp.Base.{
  ℕ, suc, ◌+◌, ◌/◌, ◌≤◌, ◌<◌, ◌≡◌, ◌⊎◌, inl, inr, refl, sym, ap, ◌∙◌, false, List, [], ◌∷◌, ◌++◌,
  append-nil, append_assoc, Bytes, concat, length, length-append, take, All, ltb, ltb→lt, arith,
  Bool-cases,
}
use mod_playerbots_mcp.Protocol.Types.{max_response_payload_bytes}
use mod_playerbots_mcp.WorldThread.Console.{print, print_all}

-- Half of the response budget.
abbrev pub sink_limit : ℕ
sink_limit = max_response_payload_bytes / 2

-- From a sink on, what is kept is the first so many pieces, and the rest is dropped only because the sink
-- has reached its limit, by no more than the last piece.
abbrev KeepsFirst : ℕ → Bytes → List Bytes → Bytes → Type 0
KeepsFirst longest sink texts output =
    (n : ℕ) × (output ≡ sink ++ concat (take n texts))
    × ((length texts ≤ n) ⊎ (sink_limit ≤ length output))
    × ((output ≡ sink) ⊎ (length output < sink_limit + longest))

print_all_full :
    (texts : List Bytes) (sink : Bytes) → sink_limit ≤ length sink → print_all sink texts ≡ sink
unfolding print_all print
print_all_full [] sink full = refl
print_all_full (text ∷ texts) sink full =
    let no_room : ltb (length sink) sink_limit ≡ false = ground arith in
    rw (no_room, print_all, print) (print_all_full texts sink full)

keeps-nothing :
    (longest : ℕ) (text : Bytes) (texts : List Bytes) (sink : Bytes)
    → sink_limit ≤ length sink
    → KeepsFirst longest sink (text ∷ texts) (print_all sink texts)
unfolding concat
keeps-nothing longest text texts sink full =
    rw (print_all_full texts sink full) (0, sym (append-nil sink), inr full, inl refl)

keeps-more :
    (longest : ℕ) (text : Bytes) (texts : List Bytes) (sink output : Bytes)
    → length sink < sink_limit
    → length text ≤ longest
    → KeepsFirst longest (sink ++ text) texts output
    → KeepsFirst longest sink (text ∷ texts) output
unfolding concat
keeps-more longest text texts sink output room fits (n, kept, rest, bounded) = (
  suc n,
  kept ∙ append_assoc sink text (concat (take n texts)),
  elim rest [ inl all ↦ inl (omega arith) | inr full ↦ inr full ],
  elim bounded [
    | inl same ↦ inr (omega (arith, ap length same, length-append sink text))
    | inr few ↦ inr few
  ],
)

print_all_keeps :
    (longest : ℕ) (texts : List Bytes) (sink : Bytes)
    → All (λ t. length t ≤ longest) texts
    → KeepsFirst longest sink texts (print_all sink texts)
unfolding print_all print concat
print_all_keeps longest [] sink short = (0, sym (append-nil sink), inl (omega arith), inl refl)
print_all_keeps longest (text ∷ texts) sink (fits, short) =
    elim (Bool-cases (ltb (length sink) sink_limit)) [
      | inl room ↦
          rw (room, print_all, print)
            (keeps-more longest text texts sink _ (ltb→lt (length sink) sink_limit room) fits
              (print_all_keeps longest texts (sink ++ text) short))
      | inr full ↦
          rw (full, print_all, print) (keeps-nothing longest text texts sink (ground arith))
    ]

-- Of the output of a console command the first so many pieces are kept, whole. If any is dropped, half of
-- the response budget is reached by what is kept, which exceeds it by less than the longest piece.
pub print_all_first :
    (longest : ℕ) (texts : List Bytes)
    → All (λ t. length t ≤ longest) texts
    → (n : ℕ) × (print_all [] texts ≡ concat (take n texts))
      × ((length texts ≤ n) ⊎ (sink_limit ≤ length (print_all [] texts)))
      × (length (print_all [] texts) < sink_limit + longest)
print_all_first longest texts short =
    let (n, kept, rest, bounded) = print_all_keeps longest texts [] short in
    (
      n,
      kept,
      rest,
      elim bounded [ inl none_kept ↦ omega (arith, ap length none_kept) | inr few ↦ few ],
    )
