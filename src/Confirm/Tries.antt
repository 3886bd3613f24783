-- ===== src/Confirm/Tries.antt =====
-- The rounds of the publishing loop of `ConfirmBatch`, by the answers of Kafka to them.
use bulk.Base.{
  ltb, ◌≤◌, ℕ, suc, ◌+◌, String, ◌≡◌, refl, Bool, true, false, ◌||◌, not, List, [], ◌∷◌, ◌++◌,
  length, Option, none, some, arith, ap, ◌∙◌, if◌then◌else◌, ◌==◌,
}
use mathlib.Core.Path.{fun_ext}
use mathlib.Core.List.{append-nil}
use bulk.Base.Int.{ℤ, pos, ltb_ℤ}
use bulk.World.{Env}
use bulk.World.Rows.{JobRow}
use bulk.Postgres.Tables.{update_job}
use bulk.Postgres.Sweep.{sweep, sweep_same}
use bulk.Confirm.{Progress}
use bulk.Confirm.Steps.{push_all, tx_for, stamped, queued_row, with_assigned}

-- A row after its round of the loop: with its transaction, and queued if Kafka took the event.
abbrev pub tried_row : Env → Bool → Option String → JobRow → JobRow
tried_row env true tx r = queued_row env tx r
tried_row env false tx r = stamped env tx r

-- What the loop does to row number i, by the answers of Kafka to each row.
abbrev pub try_step : Env → (ℕ → Bool) → List String → ℤ → ℕ → JobRow → JobRow
try_step env took txs count i r =
    if ltb_ℤ (pos i) count then tried_row env (took i) (tx_for txs i) r else r

-- The ids, from number i on, whose events Kafka took.
abbrev pub taken : (ℕ → Bool) → ℕ → List String → List String
taken took i [] = []
taken took i (k ∷ ks) = if took i then k ∷ taken took (suc i) ks else taken took (suc i) ks

-- The transactions that the rows from number i on get: those that are UUIDs.
abbrev pub uuid_of : Env → Option String → List String
uuid_of env none = []
uuid_of env (some t) = if env.is_uuid t then t ∷ [] else []

abbrev pub uuids : Env → List String → ℕ → List String → List String
uuids env txs i [] = []
uuids env txs i (k ∷ ks) = uuid_of env (tx_for txs i) ++ uuids env txs (suc i) ks

-- The variables after a round.
abbrev pub round_of : Env → Bool → Option String → Progress → Progress
round_of env true tx p = record (with_assigned env tx p) { queued = p.queued + 1 }
round_of env false tx p = record (with_assigned env tx p) { publish_error = true }

abbrev pub one_taken : Bool → String → List String → List String
one_taken a k ks = if a then k ∷ ks else ks

pub round_of_lem :
    (env : Env) (a : Bool) (tx : Option String) (p : Progress)
    → ((round_of env a tx p).queued ≡ p.queued + (if a then 1 else 0))
      × ((round_of env a tx p).publish_error ≡ p.publish_error || not a)
      × ((round_of env a tx p).assigned ≡ p.assigned ++ uuid_of env tx)
round_of_lem env true none p = ground (arith, append-nil p.assigned)
round_of_lem env false none p = ground (arith, append-nil p.assigned)
round_of_lem env true (some t) p = ground (arith, append-nil p.assigned)
round_of_lem env false (some t) p = ground (arith, append-nil p.assigned)

pub push_all-one_taken :
    (a : Bool) (k : String) (ks acc : List String)
    → push_all (one_taken a k ks) acc ≡ push_all ks (one_taken a k acc)
push_all-one_taken true k ks acc = refl
push_all-one_taken false k ks acc = refl

pub length-taken :
    (took : ℕ → Bool) (i : ℕ) (ks : List String) → length (taken took i ks) ≤ length ks
length-taken took i [] = omega arith
length-taken took i (k ∷ ks) = ground (arith, length-taken took (suc i) ks)

pub errors_join :
    (failed a : Bool) (k : String) (ks due : List String)
    → length ks ≤ length due
    → failed || not a || ltb (length ks) (length due)
      ≡ failed || ltb (length (one_taken a k ks)) (suc (length due))
errors_join failed true k ks due h = ground (arith, h)
errors_join failed false k ks due h = ground (arith, h)

pub queued_join :
    (n : ℕ) (a : Bool) (k : String) (ks : List String)
    → n + (if a then 1 else 0) + length ks ≡ n + length (one_taken a k ks)
queued_join n true k ks = omega arith
queued_join n false k ks = omega arith

-- The answers from number i on, the first of which is a.
abbrev pub starting : ℕ → Bool → (ℕ → Bool) → ℕ → Bool
starting i a took j = if j == i then a else took j

starting_now : (i : ℕ) (a : Bool) (took : ℕ → Bool) → starting i a took i ≡ a
starting_now i a took = ground arith

starting_later : (i j : ℕ) (a : Bool) (took : ℕ → Bool) → suc i ≤ j → starting i a took j ≡ took j
starting_later i j a took h = ground arith

taken_same :
    (took took' : ℕ → Bool) (i : ℕ) (ks : List String)
    → ((j : ℕ) → i ≤ j → took j ≡ took' j)
    → taken took i ks ≡ taken took' i ks
taken_same took took' i [] h = refl
taken_same took took' i (k ∷ ks) h =
    rw (h i (omega arith), taken_same took took' (suc i) ks (λ j le. h j (omega arith))) refl

try_same :
    (env : Env) (took took' : ℕ → Bool) (txs : List String) (count : ℤ) (i : ℕ) (ks : List String)
    (rows : List JobRow)
    → ((j : ℕ) → i ≤ j → took j ≡ took' j)
    → sweep (try_step env took txs count) i ks rows ≡ sweep (try_step env took' txs count) i ks rows
try_same env took took' txs count i ks rows h =
    sweep_same (try_step env took txs count) (try_step env took' txs count) i ks rows (λ j le r.
      ap (λ a. if ltb_ℤ (pos j) count then tried_row env a (tx_for txs j) r else r) (h j le))

pub taken-starting :
    (i : ℕ) (a : Bool) (took : ℕ → Bool) (k : String) (ks : List String)
    → taken (starting i a took) i (k ∷ ks) ≡ one_taken a k (taken took (suc i) ks)
taken-starting i a took k ks =
    rw
      (
        starting_now i a took,
        taken_same (starting i a took) took (suc i) ks (λ j le. starting_later i j a took le),
      )
      refl

pub try_starting :
    (env : Env) (i : ℕ) (a : Bool) (took : ℕ → Bool) (txs : List String) (count : ℤ) (k : String)
    (ks : List String) (rows : List JobRow)
    → ltb_ℤ (pos i) count ≡ true
    → sweep (try_step env (starting i a took) txs count) i (k ∷ ks) rows
      ≡ sweep
          (try_step env took txs count)
          (suc i)
          ks
          (update_job k (tried_row env a (tx_for txs i)) rows)
try_starting env i a took txs count k ks rows more =
    try_same env (starting i a took) took txs count (suc i) ks _
      (λ j le. starting_later i j a took le)
    ∙ ap (λ f. sweep (try_step env took txs count) (suc i) ks (update_job k f rows))
        (fun_ext (λ r. rw (more, starting_now i a took) refl))
