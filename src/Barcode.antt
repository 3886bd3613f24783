-- ===== src/Barcode.antt =====
-- pkg/xls/barcode.go: the two barcode URLs in the text that is stored for a job.
use bulk.Base.{
  String, ◌≡◌, false, List, [], ◌∷◌, Option, none, some, map, arith, if◌then◌else◌, str_eq, lookup,
}
use bulk.Domain.{Fields}

-- A value of a decoded JSON object: a text, or another value by its JSON text.
pub data JsonValue : Type 0 where
  text : String → JsonValue
  rendered : String → JsonValue

-- What the code calls of Go's library: `json.Unmarshal` into an object and into a list of texts, `none`
-- where it fails, `strings.Split` at commas and `strings.TrimSpace`.
pub record UrlText : Type 0 where
  pub object : String → Option (List (String × JsonValue))
  pub texts : String → Option (List String)
  pub split_comma : String → List String
  pub trim_space : String → String

-- `tryStr`
try_str : List (String × JsonValue) → String → String
try_str obj k = elim (lookup k obj) [ none ↦ "" | some v ↦ elim v [ text s ↦ s | rendered s ↦ s ] ]

or_else : String → String → String
or_else first second = if str_eq first "" then second else first

object_urls : List (String × JsonValue) → String × String
unfolding try_str or_else
object_urls obj = (
  or_else (try_str obj "pdf417") (try_str obj "pdf417_url"),
  or_else (try_str obj "code128") (try_str obj "code128_url"),
)

-- The first two texts of a list, where they are there.
first_two : List String → String × String
first_two [] = ("", "")
first_two (p ∷ []) = (p, "")
first_two (p ∷ c ∷ rest) = (p, c)

-- `ParseBarcodeURLs`
unfoldable pub parse_barcode_urls : UrlText → String → String × String
unfolding object_urls first_two
parse_barcode_urls go s = if str_eq s "" then ("", "") else elim (go.object s) [
  | some obj ↦ object_urls obj
  | none ↦ elim (go.texts s) [
    | some arr ↦ first_two arr
    | none ↦ first_two (map go.trim_space (go.split_comma s))
  ]
]

abbrev pub as_values : Fields → List (String × JsonValue)
as_values = map λ (k, v). (k, text v)

abbrev url_at : Option String → String
url_at none = ""
url_at (some u) = u

-- The URL under a key, or under the key's other name where the first is missing or empty.
unfoldable pub url_under : String → String → Fields → String
url_under k other urls =
    let first = url_at (lookup k urls) in
    if str_eq first "" then url_at (lookup other urls) else first

lookup-as_values :
    (k : String) (urls : Fields)
    → lookup k (as_values urls) ≡ elim (lookup k urls) [ none ↦ none | some v ↦ some (text v) ]
lookup-as_values k [] = ground arith
lookup-as_values k ((first, u) ∷ urls) = ground (arith, lookup-as_values k urls)

try_str-as_values :
    (k : String) (urls : Fields) → try_str (as_values urls) k ≡ url_at (lookup k urls)
unfolding try_str
try_str-as_values k urls = ground (arith, lookup-as_values k urls)

object_urls-as_values :
    (urls : Fields)
    → object_urls (as_values urls)
      ≡ (url_under "pdf417" "pdf417_url" urls, url_under "code128" "code128_url" urls)
unfolding object_urls or_else url_under
object_urls-as_values urls = rw (
  try_str-as_values "pdf417" urls,
  try_str-as_values "pdf417_url" urls,
  try_str-as_values "code128" urls,
  try_str-as_values "code128_url" urls,
)

-- The URLs of an event are read back from the JSON text of their map, whatever the order of its keys.
pub parse_barcode_urls_lem :
    (go : UrlText) (to_json : Fields → String) (urls : Fields)
    → str_eq (to_json urls) "" ≡ false
    → go.object (to_json urls) ≡ some (as_values urls)
    → parse_barcode_urls go (to_json urls)
      ≡ (url_under "pdf417" "pdf417_url" urls, url_under "code128" "code128_url" urls)
unfolding parse_barcode_urls
parse_barcode_urls_lem go to_json urls h k = rw (h, k, object_urls-as_values urls)
