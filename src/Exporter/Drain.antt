-- ===== src/Exporter/Drain.antt =====
-- The worker alone, until its queue is empty.
use bulk.Base.{
  String, ◌≡◌, ◌⊎◌, inl, inr, refl, List, [], ◌∷◌, length, none, some, arith, lookup, insert,
  lookup-insert, str_eq, eq_iff, Bool-cases, All, ap, sym, subst, ◌∙◌,
}
use bulk.Domain.{Time}
use bulk.Exporter.Listed.{Results, HasKey, insert-HasKey, All-map, Steps-IsListed}
use bulk.Exporter.Cases.{take_next_head, start_export_known, finish_known}
use bulk.Exporter.{Manager, ExportResult, ExportStatus, Outcome, take_next, finish, settled, Steps}

-- One round of the worker: when it takes an export, and what this ends with and when.
pub record Round : Type 0 where
  pub taken_at : Time
  pub outcome : Outcome
  pub ended_at : Time

abbrev pub work_round : Round → Manager → Manager
work_round r m = finish r.outcome r.ended_at (take_next r.taken_at m)

abbrev pub work : List Round → Manager → Manager
work [] m = m
work (r ∷ rs) m = work rs (work_round r m)

-- The export has ended, with its file or with an error.
abbrev pub IsSettled : Results → String → Type 0
IsSettled rs id =
    (x : ExportResult) × (lookup id rs ≡ some x)
    × ((x.status ≡ ExportStatus.done) ⊎ (x.status ≡ ExportStatus.failed))

settled-ends :
    (o : Outcome) (now : Time) (x : ExportResult)
    → ((settled o now x).status ≡ ExportStatus.done)
      ⊎ ((settled o now x).status ≡ ExportStatus.failed)
unfolding settled
settled-ends (Outcome.stored_as s) now x = inl refl
settled-ends (Outcome.failed_with e) now x = inr refl

module _ (r : Round) (m : Manager) (k : String) (ks : List String) (x : ExportResult)
    (free : m.current ≡ none) (next : m.queue ≡ k ∷ ks) (known : lookup k m.results ≡ some x) where
  abbrev running : ExportResult
  running = record x { status = ExportStatus.running; updated_at = r.taken_at }

  abbrev last : ExportResult
  last = settled r.outcome r.ended_at running

  work_round-head : work_round r m ≡ record m {
    queue = ks;
    results = insert k last (insert k running m.results);
    current = none;
  }
  work_round-head =
      let begun : take_next r.taken_at m
          ≡ record m { queue = ks; results = insert k running m.results; current = some k } =
        take_next_head k r.taken_at m ks free next
        ∙ start_export_known k r.taken_at (record m { queue = ks }) x known in
      let there : lookup k (insert k running m.results) ≡ some running =
        ground (arith, lookup-insert k k running m.results, eq_iff k k) in
      ap (finish r.outcome r.ended_at) begun
      ∙ finish_known k r.ended_at _ r.outcome running refl there

  last-ends : (last.status ≡ ExportStatus.done) ⊎ (last.status ≡ ExportStatus.failed)
  last-ends = settled-ends r.outcome r.ended_at running

  round-IsSettled : IsSettled (insert k last (insert k running m.results)) k
  round-IsSettled = (
    last,
    ground (arith, lookup-insert k k last (insert k running m.results), eq_iff k k),
    last-ends,
  )

  round_keeps :
      (id : String)
      → IsSettled m.results id
      → IsSettled (insert k last (insert k running m.results)) id
  round_keeps id (y, there, ended) = elim (Bool-cases (str_eq k id)) [
    | inl same ↦ (
      last,
      ground (arith, same, lookup-insert k id last (insert k running m.results)),
      last-ends,
    )
    | inr other ↦ (
      y,
      ground (
        arith,
        other,
        there,
        lookup-insert k id last (insert k running m.results),
        lookup-insert k id running m.results,
      ),
      ended,
    )
  ]

-- What the worker leaves of a queue.
abbrev pub IsDrained : List String → Manager → Manager → Type 0
IsDrained q before after =
    (after.queue ≡ [])
    × (after.current ≡ none)
    × ((id : String) → IsSettled before.results id → IsSettled after.results id)
    × All (IsSettled after.results) q

work-IsDrained :
    (q : List String) (rs : List Round) (m : Manager)
    → m.current ≡ none
    → m.queue ≡ q
    → length rs ≡ length q
    → All (HasKey m.results) q
    → IsDrained q m (work rs m)
work-IsDrained [] [] m free e n h = (e, free, (λ id s. s), tt)
work-IsDrained [] (r ∷ rs) m free e n h = absurd (omega (arith, n))
work-IsDrained (k ∷ ks) [] m free e n h = absurd (omega (arith, n))
work-IsDrained (k ∷ ks) (r ∷ rs) m free e n ((x, known), others) =
    let run = running r m k ks x free e known in
    let end = last r m k ks x free e known in
    let m' : Manager = record m {
      queue = ks;
      results = insert k end (insert k run m.results);
      current = none;
    } in
    let others' =
      All-map
        (λ id h.
          insert-HasKey k id end (insert k run m.results) (insert-HasKey k id run m.results h))
        ks others in
    let (empty, idle, keeps, settled_rest) =
      work-IsDrained ks rs m' refl refl (omega (arith, n)) others' in
    subst (λ t. IsDrained (k ∷ ks) m (work rs t)) (sym (work_round-head r m k ks x free e known))
      (
        empty,
        idle,
        (λ id h. keeps id (round_keeps r m k ks x free e known id h)),
        (keeps k (round-IsSettled r m k ks x free e known), settled_rest),
      )

-- Whatever requests and rounds of the worker came before, since the exporter was made with an empty
-- queue: a free worker that makes as many rounds as there are exports in the queue has taken all of
-- them and is free again, and each of them has ended, as done or as failed, whatever its outcome.
pub work-IsSettled :
    (start m : Manager) (rs : List Round)
    → start.queue ≡ []
    → Steps start m
    → m.current ≡ none
    → length rs ≡ length m.queue
    → ((work rs m).queue ≡ [])
      × ((work rs m).current ≡ none)
      × All (IsSettled (work rs m).results) m.queue
work-IsSettled start m rs empty steps free n =
    let listed = Steps-IsListed start m steps (rw empty tt) in
    let (done, idle, _, ended) = work-IsDrained m.queue rs m free refl n listed in
    (done, idle, ended)
