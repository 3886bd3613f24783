-- ===== src/Exporter/Stuck.antt =====
-- An export that meets a full queue.
use bulk.Base.{
  String, ◌≡◌, ◌≢◌, refl, false, List, [], ◌∷◌, length, Option, none, some, arith, ltb, lookup,
  insert, lookup-insert, eq_iff, Option-cases, ap, ◌∙◌, Bool-cases, inl, inr, All,
}
use bulk.Domain.{Time}
use bulk.Exporter.Cases.{
  All-append, enqueue_known, enqueue_new, offer_room, offer_full, take_next_busy, take_next_empty,
  take_next_head, start_export_missing, start_export_known, finish_free, finish_missing,
  finish_known,
}
use bulk.Exporter.{
  Manager, ExportResult, ExportStatus, Outcome, Answer, new_result, enqueue, offer, take_next,
  start_export, finish, settled, get, Step, enqueued, taken, finished, Steps, none_left, then_step,
}

-- The export is known as pending, but no one will take it.
abbrev pub IsStuck : String → ExportResult → Manager → Type 0
IsStuck id r m = (get id m ≡ some r) × All (λ x. x ≢ id) m.queue × (m.current ≢ some id)

-- Another export can be stored without touching this one.
other_result :
    (id k : String) (r x : ExportResult) (m : Manager)
    → get id m ≡ some r
    → k ≢ id
    → lookup id (insert k x m.results) ≡ some r
unfolding get
other_result id k r x m known other = ground (arith, lookup-insert k id x m.results, eq_iff k id)

module _ (id : String) (r : ExportResult) where
  -- Of two results with different keys, only the one that is stored changes.
  unlike : (k : String) (m : Manager) → lookup k m.results ≡ none → get id m ≡ some r → k ≢ id
  unfolding get
  unlike k m e known same = ground (arith, same, e, known)

  offer-IsStuck : (k : String) (m : Manager) → k ≢ id → IsStuck id r m → IsStuck id r (offer k m).1
  unfolding get
  offer-IsStuck k m other (known, absent, idle) =
      elim (Bool-cases (ltb (length m.queue) m.capacity)) [
        | inl room ↦
            rw (offer_room k 0 m room)
              (known, All-append (λ x. x ≢ id) m.queue k absent other, idle)
        | inr full ↦ rw (offer_full k 0 m full) (known, absent, idle)
      ]

  enqueue-IsStuck :
      (k : String) (now : Time) (m : Manager) → IsStuck id r m → IsStuck id r (enqueue k now m).1
  unfolding get
  enqueue-IsStuck k now m (known, absent, idle) = elim (Option-cases (lookup k m.results)) [
    | inr (x, e) ↦ rw (enqueue_known k now m x e) (known, absent, idle)
    | inl e ↦
        let other = unlike k m e known in
        let m' : Manager = record m { results = insert k (new_result k now) m.results } in
        rw (enqueue_new k now m e) (
          offer-IsStuck k m' other
            (other_result id k r (new_result k now) m known other, absent, idle))
  ]

  start_export-IsStuck :
      (k : String) (now : Time) (m : Manager)
      → k ≢ id
      → IsStuck id r m
      → IsStuck id r (start_export k now m)
  unfolding get
  start_export-IsStuck k now m other (known, absent, idle) =
      elim (Option-cases (lookup k m.results)) [
        | inl e ↦ rw (start_export_missing k now m e) (known, absent, idle)
        | inr (x, e) ↦ rw (start_export_known k now m x e) (
          other_result id k r (record x { status = ExportStatus.running; updated_at = now }) m known
              other,
          absent,
          λ same. ground (arith, same, other),
        )
      ]

  take_next-IsStuck : (now : Time) (m : Manager) → IsStuck id r m → IsStuck id r (take_next now m)
  unfolding get
  take_next-IsStuck now m stuck = go m.current m.queue refl refl
    where
      go :
          (c : Option String) (q : List String)
          → m.current ≡ c
          → m.queue ≡ q
          → IsStuck id r (take_next now m)
      go (some k) q busy e = rw (take_next_busy k now m busy) stuck
      go none [] free e = rw (take_next_empty "" now m free e) stuck
      go none (k ∷ ks) free e =
          let (known, absent, idle) = stuck in
          let (first, rest) : All (λ x. x ≢ id) (k ∷ ks) = rw e at absent in
          rw (take_next_head k now m ks free e)
            (start_export-IsStuck k now (record m { queue = ks }) first (known, rest, idle))

  finish-IsStuck :
      (o : Outcome) (now : Time) (m : Manager) → IsStuck id r m → IsStuck id r (finish o now m)
  unfolding get
  finish-IsStuck o now m (known, absent, idle) = elim (Option-cases m.current) [
    | inl e ↦ rw (finish_free "" now m o e) (known, absent, idle)
    | inr (k, e) ↦
        let other : k ≢ id = λ same. idle (e ∙ ap some same) in
        elim (Option-cases (lookup k m.results)) [
          | inl missing ↦
              rw (finish_missing k now m o e missing) (known, absent, λ same. ground (arith, same))
          | inr (x, found) ↦ rw (finish_known k now m o x e found) (
            other_result id k r (settled o now x) m known other,
            absent,
            λ same. ground (arith, same),
          )
        ]
  ]

  Step-IsStuck : (m n : Manager) → Step m n → IsStuck id r m → IsStuck id r n
  Step-IsStuck m n (enqueued k now _) h = enqueue-IsStuck k now m h
  Step-IsStuck m n (taken now _) h = take_next-IsStuck now m h
  Step-IsStuck m n (finished o now _) h = finish-IsStuck o now m h

  Steps-IsStuck : (m n : Manager) → Steps m n → IsStuck id r m → IsStuck id r n
  Steps-IsStuck m n (none_left _) h = h
  Steps-IsStuck m n (then_step _ k _ before last) h =
      Step-IsStuck k n last (Steps-IsStuck m k before h)

-- An export that is refused since the queue is full is never made: whatever requests and the worker
-- do after that, it is known as pending, it is not in the queue and not with the worker, and each
-- further request for it is refused since it already exists.
pub enqueue-IsStuck_forever :
    (id : String) (now later : Time) (m n : Manager)
    → get id m ≡ none
    → All (λ x. x ≢ id) m.queue
    → m.current ≢ some id
    → ltb (length m.queue) m.capacity ≡ false
    → Steps (enqueue id now m).1 n
    → ((enqueue id now m).0 ≡ Answer.queue_full)
      × IsStuck id (new_result id now) n
      × (enqueue id later n ≡ (Answer.already_exists, n))
unfolding get
enqueue-IsStuck_forever id now later m n unknown absent idle full steps =
    let m' : Manager = record m { results = insert id (new_result id now) m.results } in
    let refused : enqueue id now m ≡ (Answer.queue_full, m') =
      enqueue_new id now m unknown ∙ offer_full id now m' full in
    let known : lookup id m'.results ≡ some (new_result id now) =
      ground (arith, lookup-insert id id (new_result id now) m.results, eq_iff id id) in
    let stuck =
      Steps-IsStuck id (new_result id now) m' n (rw refused at steps) (known, absent, idle) in
    (ap (λ p. p.0) refused, stuck, enqueue_known id later n (new_result id now) stuck.0)
