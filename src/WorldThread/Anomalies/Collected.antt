-- ===== src/WorldThread/Anomalies/Collected.antt =====
-- The loops of `BuildAnomaliesResponse` keep the first anomalies and count all of them.
use mod_playerbots_mcp.Base.{
  ℕ, zero, suc, ◌+◌, ◌-◌, ◌%◌, ◌^◌, ◌≤◌, ◌<◌, ◌≡◌, refl, sym, ap, ap₂, ◌∙◌, false, ◌||◌, List, [],
  ◌∷◌, ◌++◌, none, some, append-nil, append_assoc, length, length-append, length-take, take, map,
  ltb, ltb→lt, ◌==◌, arith, Bool-cases, Option-cases, inl, inr,
}
use mod_playerbots_mcp.Protocol.Paging.{sort}
use mod_playerbots_mcp.Protocol.Requests.Payload.Admits.{Admits}
use mod_playerbots_mcp.Protocol.Responses.{success}
use mod_playerbots_mcp.Protocol.Types.{Request, Operation, max_anomaly_limit}
use mod_playerbots_mcp.WorldThread.Anomalies.{
  AnomalyRecord, anomaly_record, record_loop, collect_loop, anomalies_text,
  build_anomalies_response,
}
use mod_playerbots_mcp.WorldThread.Core.{Core, Player, Anomaly}
use mod_playerbots_mcp.WorldThread.Status.{find_bot, bot_guids}

zero-sub : (n : ℕ) → 0 ≡ 0 - n
zero-sub n = omega arith

suc-sub_suc : (n m : ℕ) → n - m ≡ suc n - suc m
suc-sub_suc n m = omega arith

suc-sub_zero : (n : ℕ) → suc n ≡ suc n - 0
suc-sub_zero n = omega arith

module _ {A : Type 0} where
  take-append : (n : ℕ) (xs ys : List A) → take n (xs ++ ys) ≡ take n xs ++ take (n - length xs) ys
  take-append zero xs ys = ap (λ k. take k ys) (zero-sub (length xs))
  take-append (suc n) [] ys = ap (λ k. take k ys) (suc-sub_zero n)
  take-append (suc n) (x ∷ xs) ys =
      ap (λ t. x ∷ t) (take-append n xs ys)
      ∙ ap (λ k. (x ∷ take n xs) ++ take k ys) (suc-sub_suc n (length xs))

  take_nil : (n : ℕ) → take {A = A} n [] ≡ []
  take_nil zero = refl
  take_nil (suc n) = refl

  -- Filling up with two lists is filling up with the first and then with the second.
  fill-append :
      (limit : ℕ) (kept xs ys : List A)
      → kept ++ take (limit - length kept) (xs ++ ys)
        ≡ (kept ++ take (limit - length kept) xs)
          ++ take (limit - length (kept ++ take (limit - length kept) xs)) ys
  fill-append limit kept xs ys =
      let n = limit - length kept in
      let left : n - length xs ≡ limit - length (kept ++ take n xs) =
        omega (arith, length-append kept (take n xs), length-take n xs) in
      ap (λ t. kept ++ t) (take-append n xs ys)
      ∙ sym (append_assoc kept (take n xs) (take (n - length xs) ys))
      ∙ ap (λ k. (kept ++ take n xs) ++ take k ys) left

  length-map : {B : Type 0} (f : A → B) (xs : List A) → length (map f xs) ≡ length xs
  length-map f [] = refl
  length-map f (x ∷ xs) = ap suc (length-map f xs)

module _ (core : Core) (w : core.World) where
  -- The records of all anomalies in use, by rising GUID.
  abbrev pub anomalies_of : ℕ → List ℕ → List AnomalyRecord
  anomalies_of now [] = []
  anomalies_of now (low_guid ∷ guids) = elim (find_bot core w low_guid) [
    | none ↦ anomalies_of now guids
    | some bot ↦
        let snapshot = core.copy_anomalies w bot now in
        map (anomaly_record core w low_guid bot) (take snapshot.count snapshot.anomalies)
        ++ anomalies_of now guids
  ]

  record_loop-append :
      (limit low_guid : ℕ) (bot : Player) (anomalies : List Anomaly) (records : List AnomalyRecord)
      → record_loop core w limit low_guid bot anomalies records
        ≡ records
          ++ take (limit - length records) (map (anomaly_record core w low_guid bot) anomalies)
  unfolding record_loop
  record_loop-append limit low_guid bot [] records =
      let e : take (limit - length records) [] ≡ [] = take_nil (limit - length records) in
      sym (ap (λ t. records ++ t) e ∙ append-nil records)
  record_loop-append limit low_guid bot (a ∷ anomalies) records =
      let r = anomaly_record core w low_guid bot a in
      let rest = map (anomaly_record core w low_guid bot) anomalies in
      elim (Bool-cases (ltb (length records) limit)) [
        | inl more ↦
            let left : limit - length records ≡ suc (limit - length (records ++ r ∷ [])) =
              omega (arith, length-append records (r ∷ []), ltb→lt (length records) limit more) in
            rw (more, left)
              (record_loop-append limit low_guid bot anomalies (records ++ r ∷ [])
                ∙ append_assoc records (r ∷ []) (take (limit - length (records ++ r ∷ [])) rest))
        | inr full ↦
            let none_left : limit - length records ≡ 0 = ground arith in
            rw (full, none_left) (sym (append-nil records))
      ]

  -- The records behind the loop, and the sum of the counts modulo 2 ^ 64.
  abbrev counts_of : ℕ → List ℕ → ℕ
  counts_of now [] = 0
  counts_of now (low_guid ∷ guids) = elim (find_bot core w low_guid) [
    | none ↦ counts_of now guids
    | some bot ↦ (core.copy_anomalies w bot now).count + counts_of now guids
  ]

  collect_loop-append :
      (limit now : ℕ) (guids : List ℕ) (records : List AnomalyRecord) (total : ℕ)
      → total < 2 ^ 64
      → collect_loop core w limit now guids records total ≡ (
        records ++ take (limit - length records) (anomalies_of now guids),
        (total + counts_of now guids) % 2 ^ 64,
      )
  unfolding collect_loop
  collect_loop-append limit now [] records total h =
      ap₂ (λ a b. (a, b))
        (sym (ap (λ t. records ++ t) (take_nil (limit - length records)) ∙ append-nil records))
        (omega arith)
  collect_loop-append limit now (low_guid ∷ guids) records total h =
      elim (Option-cases (find_bot core w low_guid)) [
        | inl missing ↦
            rw (missing, collect_loop, anomalies_of, counts_of)
              (collect_loop-append limit now guids records total h)
        | inr (bot, found) ↦
            let snapshot = core.copy_anomalies w bot now in
            let used = take snapshot.count snapshot.anomalies in
            let named = map (anomaly_record core w low_guid bot) used in
            let added = record_loop-append limit low_guid bot used records in
            rw (found, collect_loop, anomalies_of, counts_of)
              (rw added (
                collect_loop-append limit now guids (records ++ take (limit - length records) named)
                  ((total + snapshot.count) % 2 ^ 64) (omega arith)
                ∙ ap₂ (λ a b. (a, b))
                    (sym (fill-append limit records named (anomalies_of now guids))) (omega arith)))
      ]

  -- Each snapshot has as many anomalies as it counts.
  abbrev pub CountsItsOwn : Type 0
  CountsItsOwn =
      (bot : Player) (now : ℕ)
      → (core.copy_anomalies w bot now).count ≤ length (core.copy_anomalies w bot now).anomalies

  length-anomalies_of :
      (now : ℕ) (guids : List ℕ)
      → CountsItsOwn
      → length (anomalies_of now guids) ≡ counts_of now guids
  length-anomalies_of now [] h = refl
  length-anomalies_of now (low_guid ∷ guids) h = elim (Option-cases (find_bot core w low_guid)) [
    | inl missing ↦ rw (missing, length, anomalies_of, counts_of) (length-anomalies_of now guids h)
    | inr (bot, found) ↦
        let snapshot = core.copy_anomalies w bot now in
        let used = take snapshot.count snapshot.anomalies in
        rw (found, length, anomalies_of, counts_of)
          (omega (
            arith,
            length-append (map (anomaly_record core w low_guid bot) used) (anomalies_of now guids),
            length-map (anomaly_record core w low_guid bot) used,
            length-take snapshot.count snapshot.anomalies,
            h bot now,
            length-anomalies_of now guids h,
          ))
  ]

  -- An admitted request is answered with the first anomalies, as many as its limit, in the order of the
  -- bots' GUIDs, and with the number of all of them, if each snapshot has as many anomalies as it
  -- counts, and all together are fewer than 2 ^ 64.
  pub build_anomalies_response-first :
      (request : Request)
      → CountsItsOwn
      → Admits Operation.anomalies request
      → length (anomalies_of (core.time_ms w) (sort (bot_guids core w (core.players w)))) < 2 ^ 64
      → build_anomalies_response core w request
        ≡ success (
            anomalies_text core
              (length (sort (bot_guids core w (core.players w))))
              (take request.limit
                (anomalies_of (core.time_ms w) (sort (bot_guids core w (core.players w)))))
              (length (anomalies_of (core.time_ms w) (sort (bot_guids core w (core.players w))))))
  unfolding build_anomalies_response
  build_anomalies_response-first request counted admitted few =
      let now = core.time_ms w in
      let guids = sort (bot_guids core w (core.players w)) in
      let limited : (request.limit == 0 || ltb max_anomaly_limit request.limit) ≡ false =
        ground arith in
      let collected = collect_loop-append request.limit now guids [] 0 (omega arith) in
      let whole : (0 + counts_of now guids) % 2 ^ 64 ≡ length (anomalies_of now guids) =
        omega (arith, length-anomalies_of now guids counted) in
      rw limited (
        ap (λ (p : List AnomalyRecord × ℕ). success (anomalies_text core (length guids) p.0 p.1))
          collected
        ∙ ap₂
            (λ n t.
              success (anomalies_text core (length guids) (take n (anomalies_of now guids)) t))
            (omega arith) whole)
