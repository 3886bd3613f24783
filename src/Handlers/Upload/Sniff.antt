-- ===== src/Handlers/Upload/Sniff.antt =====
-- validate_upload.go and maxbytes_reader.go: which files are taken, and how much of a body is read.
use bulk.Base.{
  ℕ, String, Bool, false, ◌&&◌, ◌||◌, not, List, [], ◌∷◌, length, Option, none, some, if◌then◌else◌,
  str_eq, leb, ◌==◌,
}
use bulk.Base.Int.{ℤ, ltb_ℤ}
use bulk.Upload.{File}

-- `ErrFileTooLarge`, `ErrInvalidFileFormat`, `ErrInvalidContentType`, or an error of reading.
pub data UploadError : Type 0 where
  too_large invalid_format invalid_content_type : UploadError
  unreadable : String → UploadError

-- An uploaded file: its size in the header, its extension in small letters, its first bytes, at most
-- 512, or the text of the error of reading them, and the file as the service reads it.
pub record UploadFile : Type 0 where
  pub header_size : ℤ
  pub extension : String
  pub head : List ℕ
  pub read_error : Option String
  pub file : File

-- `http.DetectContentType`, `strings.Contains` and `strings.HasPrefix`
pub record Sniffer : Type 0 where
  pub detect_content_type : List ℕ → String
  pub contains : String → String → Bool
  pub has_prefix : String → String → Bool

-- `buf[0] == 'P' && buf[1] == 'K' && (buf[2] == 3 || …)`, of 4 bytes at least
zip_signature : List ℕ → Bool
zip_signature (a ∷ b ∷ c ∷ d ∷ rest) = a == 80 && b == 75 && (c == 3 || c == 5 || c == 7)
zip_signature _ = false

-- The first 4 bytes of a compound file, of 8 bytes at least.
ole_signature : List ℕ → Bool
ole_signature (a ∷ b ∷ c ∷ d ∷ rest) =
    leb 4 (length rest) && a == 208 && b == 207 && c == 17 && d == 224
ole_signature _ = false

has_byte : ℕ → List ℕ → Bool
has_byte b [] = false
has_byte b (x ∷ xs) = x == b || has_byte b xs

module _ (s : Sniffer) where
  check_xlsx : List ℕ → String → Option UploadError
  unfolding zip_signature
  check_xlsx head sniff =
      if zip_signature head || s.contains sniff "zip" || str_eq sniff "application/zip"
      then none
      else some UploadError.invalid_format

  check_xls : List ℕ → String → Option UploadError
  unfolding ole_signature
  check_xls head sniff =
      if ole_signature head
        || s.contains sniff "ms-excel"
        || s.contains sniff "application/octet-stream"
      then none
      else some UploadError.invalid_format

  -- A comma is byte 44, the end of a line byte 10.
  check_csv : List ℕ → String → Option UploadError
  unfolding has_byte
  check_csv head sniff =
      if s.has_prefix sniff "text/"
        || s.contains sniff "csv"
        || str_eq sniff "application/octet-stream"
        || has_byte 44 head
        || has_byte 10 head
      then none
      else some UploadError.invalid_content_type

  check_head : String → List ℕ → Option UploadError
  unfolding check_xlsx check_xls check_csv
  check_head ext head =
      let sniff = s.detect_content_type head in
      if str_eq ext ".xlsx"
      then check_xlsx head sniff
      else if str_eq ext ".xls"
      then check_xls head sniff
      else check_csv head sniff

  -- The keys of `allowedExtensions`.
  allowed_extension : String → Bool
  allowed_extension ext = str_eq ext ".xls" || str_eq ext ".xlsx" || str_eq ext ".csv"

  -- `ValidateUpload`; `none` is no error.
  unfoldable pub validate_upload : ℤ → UploadFile → Option UploadError
  unfolding check_head allowed_extension
  validate_upload max_file_size file =
      if ltb_ℤ max_file_size file.header_size
      then some UploadError.too_large
      else if not (allowed_extension file.extension)
      then some UploadError.invalid_format
      else elim file.read_error [
        | some message ↦ some (UploadError.unreadable message)
        | none ↦ check_head file.extension file.head
      ]
