-- ===== src/Exporter/Listed.antt =====
-- The exports of the queue are known.
use bulk.Base.{
  String, ◌≡◌, inl, inr, refl, List, [], ◌∷◌, length, Option, none, some, arith, ltb, lookup,
  insert, lookup-insert, str_eq, eq_iff, Option-cases, Bool-cases, All,
}
use bulk.Domain.{Time}
use bulk.Exporter.Cases.{
  All-append, enqueue_known, enqueue_new, offer_room, offer_full, take_next_busy, take_next_empty,
  take_next_head, start_export_known, finish_free, finish_missing, finish_known,
}
use bulk.Exporter.{
  Manager, ExportResult, Outcome, new_result, enqueue, offer, take_next, finish, Step, enqueued,
  taken, finished, Steps, none_left, then_step,
}

abbrev pub Results : Type 0
Results = List (String × ExportResult)

abbrev pub HasKey : Results → String → Type 0
HasKey rs id = (x : ExportResult) × (lookup id rs ≡ some x)

pub insert-HasKey :
    (k id : String) (v : ExportResult) (rs : Results) → HasKey rs id → HasKey (insert k v rs) id
insert-HasKey k id v rs (x, known) = elim (Bool-cases (str_eq k id)) [
  | inl same ↦ (v, ground (arith, same, lookup-insert k id v rs))
  | inr other ↦ (x, ground (arith, other, known, lookup-insert k id v rs))
]

pub All-map :
    {P Q : String → Type 0} (f : (x : String) → P x → Q x) (xs : List String) → All P xs → All Q xs
All-map f [] h = tt
All-map f (x ∷ xs) h = (f x h.0, All-map f xs h.1)

-- Each export of the queue is known.
abbrev pub IsListed : Manager → Type 0
IsListed m = All (HasKey m.results) m.queue

offer-IsListed :
    (id : String) (m : Manager) → HasKey m.results id → IsListed m → IsListed (offer id m).1
offer-IsListed id m there h = elim (Bool-cases (ltb (length m.queue) m.capacity)) [
  | inl room ↦ rw (offer_room id 0 m room) (All-append (HasKey m.results) m.queue id h there)
  | inr full ↦ rw (offer_full id 0 m full) h
]

insert-IsListed :
    (k : String) (v : ExportResult) (rs : Results) (q : List String)
    → All (HasKey rs) q
    → All (HasKey (insert k v rs)) q
insert-IsListed k v rs q h = All-map (λ id. insert-HasKey k id v rs) q h

enqueue-IsListed :
    (id : String) (now : Time) (m : Manager) → IsListed m → IsListed (enqueue id now m).1
enqueue-IsListed id now m h = elim (Option-cases (lookup id m.results)) [
  | inr (x, e) ↦ rw (enqueue_known id now m x e) h
  | inl e ↦
      let fresh = new_result id now in
      let there : lookup id (insert id fresh m.results) ≡ some fresh =
        ground (arith, lookup-insert id id fresh m.results, eq_iff id id) in
      rw (enqueue_new id now m e) (
        offer-IsListed id (record m { results = insert id fresh m.results }) (fresh, there)
          (insert-IsListed id fresh m.results m.queue h))
]

take_next-IsListed : (now : Time) (m : Manager) → IsListed m → IsListed (take_next now m)
take_next-IsListed now m h = go m.current m.queue refl refl
  where
    go :
        (c : Option String) (q : List String)
        → m.current ≡ c
        → m.queue ≡ q
        → IsListed (take_next now m)
    go (some k) q busy e = rw (take_next_busy k now m busy) h
    go none [] free e = rw (take_next_empty "" now m free e) h
    go none (k ∷ ks) free e =
        let ((x, known), rest) : All (HasKey m.results) (k ∷ ks) = rw e at h in
        rw
          (
            take_next_head k now m ks free e,
            start_export_known k now (record m { queue = ks }) x known,
          )
          (insert-IsListed k _ m.results ks rest)

finish-IsListed : (o : Outcome) (now : Time) (m : Manager) → IsListed m → IsListed (finish o now m)
finish-IsListed o now m h = elim (Option-cases m.current) [
  | inl e ↦ rw (finish_free "" now m o e) h
  | inr (k, e) ↦ elim (Option-cases (lookup k m.results)) [
    | inl missing ↦ rw (finish_missing k now m o e missing) h
    | inr (x, found) ↦
        rw (finish_known k now m o x e found) (insert-IsListed k _ m.results m.queue h)
  ]
]

Step-IsListed : (m n : Manager) → Step m n → IsListed m → IsListed n
Step-IsListed m n (enqueued k now _) h = enqueue-IsListed k now m h
Step-IsListed m n (taken now _) h = take_next-IsListed now m h
Step-IsListed m n (finished o now _) h = finish-IsListed o now m h

pub Steps-IsListed : (m n : Manager) → Steps m n → IsListed m → IsListed n
Steps-IsListed m n (none_left _) h = h
Steps-IsListed m n (then_step _ k _ before last_step) h =
    Step-IsListed k n last_step (Steps-IsListed m k before h)
