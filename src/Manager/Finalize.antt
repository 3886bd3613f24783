-- ===== src/Manager/Finalize.antt =====
-- `FinalizeAfterUpload`: the decision on a batch's status after its upload.
use bulk.Base.{ℕ, suc, String, ◌≡◌, refl, true, Option, none, some, arith, if◌then◌else◌}
use bulk.Base.Int.{ℤ, pos, ltb_ℤ}
use bulk.Domain.{Batch, BatchStatus}
use bulk.World.{World, Env, Result, ok, err, Quote, partial_available}
use bulk.Postgres.Calls.{ticked}
use bulk.Postgres.RoundTrip.{stored, saved_over, get_batch-stored}
use bulk.Manager.{
  BatchManager, finalize_after_upload, save_and_publish, finalize_partial, finalize_quoted,
  finalize_valid,
}
use bulk.Outside.{publish, quote}
use bulk.Manager.Saves.{save_and_publish-changed}

-- How many rows billing allows, if it answers at all.
abbrev pub allowance : Result (Option Quote) → Option ℤ
allowance (ok (some q)) = some q.allowed_total
allowance _ = none

-- The batch that an upload should leave: `allowed` is what billing allows, if it is asked and answers.
abbrev pub finalized : Batch → ℤ → ℤ → Option ℤ → Batch
finalized b valid invalid allowed =
    if ltb_ℤ (pos 0) invalid
    then record b { valid_rows = valid; status = BatchStatus.validation_errors }
    else elim allowed [
      | none ↦ record b { valid_rows = valid; status = BatchStatus.ready }
      | some n ↦
          if ltb_ℤ n valid
          then record b {
            valid_rows = valid;
            status = BatchStatus.partial_available;
            approved_count = n;
          }
          else record b { valid_rows = valid; status = BatchStatus.ready }
    ]

module _ (env : Env) (m : BatchManager) (w : World) (k : String) (b : Batch)
    (up : (n : ℕ) → env.store_fault n ≡ none) (s : stored k w ≡ some b) where
  finalize_partial-stored :
      (u : World) (c : Batch) (allowed valid : ℤ)
      → u.batches ≡ w.batches
      → c.id ≡ b.id
      → c.completed_at ≡ b.completed_at
      → stored k (finalize_partial env m c allowed valid u).1
        ≡ some (
            saved_over b
              (record c { status = BatchStatus.partial_available; approved_count = allowed }))
  unfolding finalize_partial
  finalize_partial-stored u c allowed valid same key at = ground (
    arith,
    after u same,
    after (publish env m.history_topic (partial_available c.id allowed valid) u).1 same,
  )
    where
      partial : Batch
      partial = record c { status = BatchStatus.partial_available; approved_count = allowed }

      after :
          (v : World)
          → v.batches ≡ w.batches
          → stored k (save_and_publish env m partial v).1 ≡ some (saved_over b partial)
      after v e = save_and_publish-changed env m w v k b partial up s e key at

  ready_stored :
      (u : World) (c : Batch)
      → u.batches ≡ w.batches
      → c.id ≡ b.id
      → c.completed_at ≡ b.completed_at
      → stored k (save_and_publish env m (record c { status = BatchStatus.ready }) u).1
        ≡ some (saved_over b (record c { status = BatchStatus.ready }))
  ready_stored u c same key at =
      save_and_publish-changed env m w u k b (record c { status = BatchStatus.ready }) up s same key
        at

  finalize_quoted-stored :
      (u : World) (valid : ℤ) (reply : Result (Option Quote))
      → u.batches ≡ w.batches
      → stored k (finalize_quoted env m (record b { valid_rows = valid }) valid reply u).1
        ≡ some (saved_over b (finalized b valid (pos 0) (allowance reply)))
  unfolding finalize_quoted
  finalize_quoted-stored u valid (ok (some q)) same = ground (
    arith,
    finalize_partial-stored u (record b { valid_rows = valid }) q.allowed_total valid same refl
        refl,
    ready_stored u (record b { valid_rows = valid }) same refl refl,
  )
  finalize_quoted-stored u valid (ok none) same =
      ready_stored u (record b { valid_rows = valid }) same refl refl
  finalize_quoted-stored u valid (err e) same =
      ready_stored u (record b { valid_rows = valid }) same refl refl

  finalize_valid-stored :
      (u : World) (valid : ℤ)
      → u.batches ≡ w.batches
      → stored k (finalize_valid env m (record b { valid_rows = valid }) valid u).1
        ≡ some (
            saved_over b (
              finalized b valid
                (pos 0)
                (if m.billing then allowance (env.quote_reply u.calls) else none)))
  unfolding finalize_valid
  finalize_valid-stored u valid same = ground (
    arith,
    finalize_quoted-stored (quote env b.user_id valid u).1 valid (env.quote_reply u.calls) same,
    finalize_quoted-stored u valid (ok none) same,
  )

-- With a store that answers, the upload of a stored batch ends with the batch stored as
-- `validation_errors` if a row is invalid; else as `partial_available`, with the allowed total as its
-- approved count, if billing is set and answers with less than the valid rows; and else as `ready`,
-- also where billing fails. The number of valid rows is stored in every case.
pub finalize_after_upload-stored :
    (env : Env) (m : BatchManager) (w : World) (k : String) (b : Batch) (valid invalid : ℤ)
    → ((n : ℕ) → env.store_fault n ≡ none)
    → m.batch_repo ≡ true
    → stored k w ≡ some b
    → stored k (finalize_after_upload env m k valid invalid w).1
      ≡ some (
          saved_over b (
            finalized b valid invalid
              (if m.billing then allowance (env.quote_reply (suc w.calls)) else none)))
unfolding finalize_after_upload
finalize_after_upload-stored env m w k b valid invalid up hb s = ground (
  arith,
  get_batch-stored env w k b (up _) s,
  finalize_valid-stored env m w k b up s (ticked w) valid refl,
  save_and_publish-changed env m w (ticked w) k b
      (record b { valid_rows = valid; status = BatchStatus.validation_errors }) up s refl refl refl,
)
