-- ===== src/Examples/Template.antt =====
-- A template that is downloaded and uploaded again.
use bulk.Base.{String, Bool, ◌≡◌, refl, true, [], ◌∷◌, none, some, lookup, arith}
use bulk.Base.Int.{pos}
use bulk.World.{ok, err, outside}
use bulk.Reader.{Readers, Workbook, is_zip, read_first_sheet}
use bulk.Parser.Columns.{TextOps}
use bulk.Parser.Sheet.{XlsParser, parse}
use bulk.Validation.Rules.{load_rules, validate_row}
use bulk.Handlers.Reply.{reply}
use bulk.Handlers.Template.{
  SheetFile, Template, template_headers, template_sample, set_cells, handle_download_template_xls,
}
use bulk.Handlers.Template.Accepted.{
  IsGoText, sample_fields, small_letters, handle_download_template_xls-accepted,
}

abbrev sheet_file : SheetFile
sheet_file = record { set_cell = λ row column value. none; write = none }

abbrev template : Template
template = record { revision = "v1"; rows = template_headers ∷ template_sample ∷ [] }

template_sent : handle_download_template_xls sheet_file "v1" ≡ reply 200 template
unfolding handle_download_template_xls set_cells
template_sent = refl

abbrev workbook : Workbook
workbook = record { sheets = "Sheet1" ∷ []; get_rows = λ name. ok template.rows }

abbrev readers : Readers
readers = record {
  open_workbook = λ bytes. ok workbook;
  temp_fault = none;
  first_old_sheet = λ bytes. ok none;
  read_csv = λ bytes. err (outside "no csv");
}

-- The codes have small letters; no other text has capitals.
abbrev some_text : TextOps
some_text = record {
  to_lower = λ s. elim (lookup s small_letters) [ none ↦ s | some small ↦ small ];
  to_upper = λ s. s;
  trim_space = λ s. s;
}

some_text-IsGoText : IsGoText some_text
some_text-IsGoText = ground arith

abbrev limited : XlsParser
limited = record { max_rows = pos 1000; max_cols = pos 50; max_file_size = pos 10 }

abbrev any_match : String → String → Bool
any_match pattern value = true

handle_download_template_xls-accepted_example :
    (parse some_text limited "v1" 2 (read_first_sheet readers (ok (80 ∷ 75 ∷ [])))
      ≡ ok (record { fields = sample_fields; row_number = 2 } ∷ []))
    × (validate_row any_match (load_rules "v1") sample_fields
        ≡ record { valid = true; errors = [] })
unfolding is_zip
handle_download_template_xls-accepted_example =
    handle_download_template_xls-accepted sheet_file "v1" template readers (80 ∷ 75 ∷ []) workbook
      "Sheet1" [] some_text limited any_match template_sent refl refl refl refl some_text-IsGoText
      (refl, (refl, (refl, (refl, (refl, (refl, (refl, tt))))))) refl refl refl
