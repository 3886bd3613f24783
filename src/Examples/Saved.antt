-- ===== src/Examples/Saved.antt =====
-- A file storage, and an export that is saved there.
use bulk.Base.{
  String, ◌≡◌, ◌⊎◌, refl, true, false, List, [], none, some, arith, if◌then◌else◌, str_eq, eq_iff,
  lookup, insert, lookup-insert,
}
use bulk.Base.Int.{pos}
use bulk.World.{Error, ok, err, outside}
use bulk.Storage.{Minio, PathText, FileClient}
use bulk.Storage.Kept.{IsKeeping, IsCleaning}
use bulk.Sheets.{Line, export_results_xls}
use bulk.Exporter.{ExportStatus, enqueue, take_next, finish, get}
use bulk.Exporter.Worker.{run_export}
use bulk.Handlers.Reply.{reply}
use bulk.Handlers.Exports.{file_of, shown, over_minio, handle_get_export}
use bulk.Handlers.Exports.Ended.{ended}
use bulk.Handlers.Exports.Saved.{handle_get_export-saved}
use bulk.Examples.{calm, plain, service}
use bulk.Examples.Handlers.{url_text}
use bulk.Examples.Exporter.{idle}
use bulk.Examples.Downloads.{xlsx}

abbrev Objects : Type 0
Objects = List (String × String)

-- One bucket, whose objects are kept under their keys.
abbrev minio : Minio Objects
minio = record {
  connect = λ endpoint access secret use_ssl. none;
  bucket_exists = λ bucket s. ok true;
  make_bucket = λ bucket s. (none, s);
  put_object = λ bucket key content s. (ok key, insert key content s);
  presigned_get_object = λ bucket key expiry s. ok "https://files/f1";
  get_object = λ bucket key s. elim (lookup key s) [
    | none ↦ err (outside "NoSuchKey")
    | some content ↦ ok (record { content = content; breaks_off = false })
  ];
}

minio-IsKeeping : IsKeeping minio
minio-IsKeeping bucket key content id s h =
    (ground (arith, h), ground (arith, lookup-insert key id content s, eq_iff key id, h))

abbrev paths : PathText
paths = record {
  clean = λ name. if str_eq name "" then "." else name;
  join = λ a b c. c;
  parse_url = λ s. err (outside "no URL");
  url_text = λ u. u.path;
}

paths-IsCleaning : IsCleaning paths
paths-IsCleaning name = ground (arith, eq_iff name "", eq_iff "." "")

abbrev client : FileClient
client = record { client = true; bucket = "bulk"; base_url = ""; use_object = true }

abbrev encode : List Line → String
encode lines = "xlsx"

abbrev text : Error → String
text e = "failed"

handle_get_export-saved_example :
    let (o, w, s) =
      run_export minio paths calm url_text xlsx encode text
        (some service)
        (some client)
        "b"
        plain
        [] in
    let after = finish o 3 (take_next 2 (enqueue "b" 1 idle).1) in
    let answer =
      handle_get_export 3600
        (some (over_minio minio paths (some client) 3600 s))
        (some after)
        "b"
        true
        9 in
    let shown_as = ended "b" 1 2 3 o in
    ((lines : List Line) × ((export_results_xls calm url_text xlsx service "b" (pos 0) plain).0
        ≡ ok (some lines))
      × (shown_as.status ≡ ExportStatus.done)
      × (answer ≡ reply 200 (file_of shown_as (encode lines))))
    ⊎ ((error : Error) × (shown_as.status ≡ ExportStatus.failed)
        × (shown_as.error ≡ text error)
        × (answer ≡ reply 200 (shown shown_as)))
unfolding get
handle_get_export-saved_example =
    handle_get_export-saved minio paths calm url_text xlsx encode text minio-IsKeeping
      paths-IsCleaning service client 3600 "b" 1 2 3 9 idle plain [] refl refl refl refl refl
