-- ===== src/Producer.antt =====
-- internal/kafka/producer.go: the publication of a message, with its retries. What a writer answers to a
-- message is a parameter; metrics, tracing and the headers are left out.
pub mod Retries
use bulk.Base.{
  ℕ, zero, suc, ◌+◌, ◌-◌, ◌*◌, ◌^◌, String, Bool, true, false, List, [], ◌∷◌, Option, none, some,
  if◌then◌else◌, ◌==◌, lookup, insert,
}
use bulk.World.{Env, Error}

-- `RealProducer`: the writers by their topics, each by its number in the order of their making.
pub record RealProducer : Type 0 where
  pub writers : List (String × ℕ)
  pub made : ℕ
  pub retry_count : ℕ

-- `NewProducer`
abbrev pub new_producer : RealProducer
new_producer = record { writers = []; made = 0; retry_count = 3 }

-- `writerFor`
pub writer_for : String → RealProducer → ℕ × RealProducer
writer_for topic p = elim (lookup topic p.writers) [
  | some w ↦ (w, p)
  | none ↦ (p.made, record p { writers = insert topic p.made p.writers; made = p.made + 1 })
]

-- The wait before an attempt, in milliseconds.
pub backoff : ℕ → ℕ
backoff zero = 0
backoff (suc n) = 100 * 2 ^ n

-- The outcome of a publication: its error, the messages written, and the time waited.
pub record Sending : Type 0 where
  pub fault : Option Error
  pub writes : ℕ
  pub waited : ℕ

-- The loop from an attempt on, with the attempts that are left and the error of the one before.
pub attempt_from : (ℕ → Option Error) → ℕ → ℕ → Option Error → Sending
unfolding backoff
attempt_from answers attempt zero last = record { fault = last; writes = 0; waited = 0 }
attempt_from answers attempt (suc left) last = elim (answers attempt) [
  | none ↦ record { fault = none; writes = 1; waited = backoff attempt }
  | some e ↦
      let rest = attempt_from answers (suc attempt) left (some e) in
      record {
        fault = rest.fault;
        writes = suc rest.writes;
        waited = backoff attempt + rest.waited;
      }
]

-- `Publish`: `answers w n` is what writer w answers to attempt n.
pub publish_message : (ℕ → ℕ → Option Error) → String → RealProducer → Sending × RealProducer
unfolding writer_for attempt_from
publish_message answers topic p =
    let (w, p') = writer_for topic p in (attempt_from (answers w) 0 (suc p.retry_count) none, p')
