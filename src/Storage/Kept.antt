-- ===== src/Storage/Kept.antt =====
-- Files that are saved and opened again.
use bulk.Base.{String, ◌≡◌, ◌≢◌, false, Option, none, some, arith}
use bulk.World.{ok}
use bulk.Storage.{Minio, PathText, FileClient, save, get_file}

-- MinIO gives the key of a stored object back, and the object is read as it was stored.
abbrev pub IsKeeping : {S : Type 0} → Minio S → Type 0
IsKeeping {S} m =
    (bucket key content id : String) (s : S)
    → (m.put_object bucket key content s).0 ≡ ok id
    → (id ≡ key)
      × (m.get_object bucket key (m.put_object bucket key content s).1
          ≡ ok (record { content = content; breaks_off = false }))

-- A path that is cleaned is not empty, and stays as it is when it is cleaned again.
abbrev pub IsCleaning : PathText → Type 0
IsCleaning p = (name : String) → (p.clean name ≢ "") × (p.clean (p.clean name) ≡ p.clean name)

-- What is saved is opened by the id of the save, which is not empty.
pub get_file-save :
    {S : Type 0} (m : Minio S) (p : PathText) (f : Option FileClient) (name content id : String)
    (s : S)
    → IsKeeping m
    → IsCleaning p
    → (save m p f name content s).0 ≡ ok id
    → (id ≢ "")
      × (get_file m p f id (save m p f name content s).1
          ≡ ok (record { content = content; breaks_off = false }))
unfolding save get_file
get_file-save m p none name content id s keeps cleans saved = ground (arith, saved)
get_file-save m p (some c) name content id s keeps cleans saved =
    ground (arith, saved, keeps c.bucket (p.clean name) content id s, cleans name)
