-- ===== src/Tests/Exporting.antt =====
-- The export of two words, one with a comma and a quote, and the theorem about it.
use censorhub.Prelude.{false, none, ◌≡◌, refl, true, some, List, [], ◌∷◌, ◌++◌, pos}
use censorhub.Text.{runes, text_eq}
use censorhub.Domain.{category_ad}
use censorhub.Domain.Word.{SensitiveWord}
use censorhub.Words.Export.{word_fields, exported_rows, BatchTurn, export_to_writer, csv_record}
use censorhub.Words.Export.Laws.{Finds, finished, batch, Exported, export_to_writer-read_csv}
use censorhub.Tests.Inputs.{ascii}

abbrev quoted_word : SensitiveWord
quoted_word = record {
  id = 2;
  text = runes "win, \"now\"";
  category = category_ad;
  level = pos 3;
  status = pos 1;
  tag = [];
  created_at = 5;
  updated_at = 5;
}

abbrev plain_word : SensitiveWord
plain_word = record quoted_word { id = 1; text = runes "spam"; level = pos 1; status = pos 0 }

abbrev turns : List BatchTurn
turns =
    record { found = some (plain_word ∷ []); flushed = true; spilled = 0 }
    ∷ record { found = some (quoted_word ∷ []); flushed = true; spilled = 0 }
    ∷ []

written : csv_record ascii (word_fields quoted_word) ++ [] ≡ runes "\"win, \"\"now\"\"\",ad,high,\n"
unfolding csv_record word_fields
written = refl

abbrev rows : List SensitiveWord
rows = quoted_word ∷ plain_word ∷ []

turns-Finds : Finds turns (exported_rows text_eq category_ad rows)
unfolding exported_rows text_eq
turns-Finds = batch (plain_word ∷ []) true 0 (batch (quoted_word ∷ []) true 0 finished)

-- The writer takes three runes of the header, and nothing after an error of the first batch.
spilling :
    export_to_writer ascii
      (record { found = some (plain_word ∷ []); flushed = false; spilled = 3 } ∷ [])
      true
      0
    ≡ (runes "tex", false)
unfolding export_to_writer
spilling = refl

unfound :
    export_to_writer ascii (record { found = none; flushed = true; spilled = 0 } ∷ []) true 0
    ≡ ([], false)
unfolding export_to_writer
unfound = refl

export_to_writer-read_csv_example :
    Exported ascii turns true
      (exported_rows text_eq category_ad rows)
      (export_to_writer ascii turns true 0)
export_to_writer-read_csv_example =
    export_to_writer-read_csv text_eq ascii turns true 0 category_ad rows turns-Finds
