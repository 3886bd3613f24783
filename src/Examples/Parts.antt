-- ===== src/Examples/Parts.antt =====
-- The store, the validation and the parser.
use bulk.Base.{
  String, ◌≡◌, refl, Bool, true, List, [], ◌∷◌, length, lookup, get_elem?, some, arith, eq_iff,
}
use bulk.Base.Int.{pos}
use bulk.World.{Result, ok}
use bulk.Postgres.RoundTrip.{stored, stored-save_batch}
use bulk.Postgres.Repositories.{save_batch}
use bulk.Postgres.Tables.{find_batch}
use bulk.Postgres.Convert.{to_domain, scan_batch}
use bulk.Parser.Columns.{TextOps, detect_columns, detect_column, build_alias_map}
use bulk.Parser.Sheet.{XlsParser, Row, count_recognized, parse}
use bulk.Parser.Limits.{Within, NamesField, numbers, parse-numbers, parse-last_cell}
use bulk.Examples.{calm, plain, plain_batch}

stored-save_batch_example :
    stored "b"
      (save_batch calm (record plain_batch { priority = "high"; approved_count = pos 9 }) plain).1
    ≡ some (record plain_batch { approved_count = pos 9 })
unfolding find_batch to_domain scan_batch
stored-save_batch_example =
    stored-save_batch calm plain (record plain_batch { priority = "high"; approved_count = pos 9 })
      "b" refl (ground arith)

-- Every text matches every pattern.
abbrev anything : String → String → Bool
anything p t = true

abbrev plain_text : TextOps
plain_text = record { to_lower = λ s. s; to_upper = λ s. s; trim_space = λ s. s }

abbrev small_parser : XlsParser
small_parser = record { max_rows = pos 2; max_cols = pos 0; max_file_size = pos 100 }

-- The second column wins over the first.
parse-last_cell_example :
    (found : List Row) × (r : Row) × (parse plain_text small_parser "v1" 10
        (ok (("dac" ∷ "firstname" ∷ []) ∷ ("Ann" ∷ "Bob" ∷ []) ∷ []))
      ≡ ok found)
    × (get_elem? found 0 ≡ some r)
    × (r.row_number ≡ 2)
    × (lookup "DAC" r.fields ≡ some "Bob")
unfolding detect_columns detect_column build_alias_map count_recognized
parse-last_cell_example =
    parse-last_cell plain_text small_parser "v1" 10 0 ("dac" ∷ "firstname" ∷ [])
      ("Ann" ∷ "Bob" ∷ []) (("Ann" ∷ "Bob" ∷ []) ∷ []) "DAC" refl refl refl (ground (arith))
      (ground (arith, eq_iff "DAC" "")) refl

abbrev one_row : Result (List (List String))
one_row = ok (("dac" ∷ []) ∷ ("Ann" ∷ []) ∷ [])

parse-numbers_example :
    (headers : List String) × (rows : List (List String)) × (one_row ≡ ok (headers ∷ rows))
    × Within small_parser.max_file_size 10
    × Within small_parser.max_cols (length headers)
    × Within small_parser.max_rows (length rows)
    × NamesField (detect_columns plain_text headers "v1") headers
    × (2 ∷ [] ≡ numbers 2 (length rows))
unfolding parse
parse-numbers_example =
    parse-numbers plain_text small_parser "v1" 10 one_row
      (record { fields = ("DAC", "Ann") ∷ []; row_number = 2 } ∷ []) refl
