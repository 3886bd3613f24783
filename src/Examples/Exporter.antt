-- ===== src/Examples/Exporter.antt =====
-- The exporter.
use bulk.Base.{◌≡◌, refl, [], ◌∷◌, none, arith, eq_iff}
use bulk.Exporter.{
  Manager, Answer, new_result, enqueue, take_next, get, none_left, then_step, taken,
}
use bulk.Exporter.Stuck.{IsStuck, enqueue-IsStuck_forever}

abbrev pub idle : Manager
idle = record { queue = []; capacity = 1; results = []; current = none }

-- The one place of the queue is taken.
abbrev full : Manager
full = record {
  queue = "a" ∷ [];
  capacity = 1;
  results = ("a", new_result "a" 0) ∷ [];
  current = none;
}

-- After the refusal the worker takes the export that is in the queue.
abbrev later : Manager
later = take_next 2 (enqueue "b" 1 full).1

enqueue-IsStuck_forever_example :
    ((enqueue "b" 1 full).0 ≡ Answer.queue_full)
    × IsStuck "b" (new_result "b" 1) later
    × (enqueue "b" 5 later ≡ (Answer.already_exists, later))
unfolding get
enqueue-IsStuck_forever_example =
    enqueue-IsStuck_forever "b" 1 5 full later refl (ground (arith, eq_iff "a" "b")) (ground arith)
      refl
      (then_step (enqueue "b" 1 full).1 (enqueue "b" 1 full).1 later
        (none_left (enqueue "b" 1 full).1) (taken 2 (enqueue "b" 1 full).1))
