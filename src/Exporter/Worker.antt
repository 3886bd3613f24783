-- ===== src/Exporter/Worker.antt =====
-- What the worker of internal/exporter/manager.go does with an export that it has taken. The bytes of a
-- file and the texts of errors are parameters.
use Prim.Native.String.{◌++◌ as append_text}
use bulk.Base.{String, List, Option, none, some}
use bulk.Base.Int.{pos}
use bulk.World.{World, Env, Error, Result, ok, err}
use bulk.Barcode.{UrlText}
use bulk.Confirm.{Service}
use bulk.Storage.{Minio, PathText, FileClient, save}
use bulk.Sheets.{Xlsx, Line, export_results_xls}
use bulk.Exporter.{Outcome}

abbrev pub export_name : String → String
export_name id = append_text "exports/" (append_text id ".xlsx")

module _ {S : Type 0} (m : Minio S) (p : PathText) (env : Env) (urls : UrlText) (x : Xlsx)
    (encode : List Line → String) (text : Error → String) where
  -- The file is saved if there is a storage; without one the id stays empty.
  unfoldable pub keep_file : Option FileClient → String → String → S → Result String × S
  keep_file none id content s = (ok "", s)
  keep_file (some f) id content s = save m p (some f) (export_name id) content s

  unfoldable pub outcome_of : Result String → Outcome
  outcome_of (ok id) = Outcome.stored_as id
  outcome_of (err e) = Outcome.failed_with (text e)

  -- From the call of the service on, up to the outcome that is stored.
  unfoldable pub run_export :
      Option Service → Option FileClient → String → World → S → Outcome × World × S
  unfolding keep_file outcome_of
  run_export none f id w s =
      let (r, s') = keep_file f id (append_text "export for batch " id) s in (outcome_of r, w, s')
  run_export (some svc) f id w s =
      let (r, w') = export_results_xls env urls x svc id (pos 0) w in
      elim r [
        | err e ↦ (outcome_of (err e), w', s)
        | ok file ↦ elim file [
          | none ↦ (outcome_of (ok ""), w', s)
          | some lines ↦
              let (kept, s') = keep_file f id (encode lines) s in (outcome_of kept, w', s')
        ]
      ]
