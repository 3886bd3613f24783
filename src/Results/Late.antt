-- ===== src/Results/Late.antt =====
-- A result that comes in after the cancellation of its batch.
use bulk.World.{World}
