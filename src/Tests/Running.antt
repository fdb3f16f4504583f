-- ===== src/Tests/Running.antt =====
-- A whole run of the process, one that is ended by an error, and the line of a DSN.
use censorhub.Prelude.{ℕ, ◌≤◌, ◌≡◌, refl, true, false, none, some, [], ◌∷◌, ◌++◌, length, arith}
use censorhub.Text.{Text, runes}
use censorhub.Config.{Config}
use censorhub.Connections.{mask_dsn}
use censorhub.Connections.Laws.{credentials, mask_dsn-credentials}
use censorhub.Startup.Process.{Surroundings, log, mysql, run_stages, stages_of}
use censorhub.Tests.Matching.{word_list}
use censorhub.Tests.Managing.{no_words}
use censorhub.Tests.Starting.{blank}

abbrev at_work : Surroundings
at_work = record {
  opens_file = λ path. true;
  exporter = true;
  resource = true;
  opens_mysql = true;
  gives_db = true;
  migrates = true;
  pings = true;
  words = some word_list;
  print = none;
  table = no_words;
  listens = true;
  drains = true;
}

-- The levels of zap are numbers.
abbrev info_level : ℕ
info_level = 0

-- Without Redis, the process ends with MySQL and the log open.
no_redis :
    run_stages (stages_of info_level (λ t. none) blank (record at_work { pings = false })) []
    ≡ (mysql ∷ log ∷ [], false)
unfolding run_stages stages_of
no_redis = refl

mask_dsn-credentials_example :
    ((shown : Text) × (mask_dsn
          (credentials (runes "root") (runes "root") ++ runes "@tcp(db:3306)/words")
        ≡ credentials (runes "root") (runes "root") ++ shown))
    × (length (mask_dsn (credentials (runes "root") (runes "root") ++ runes "@tcp(db:3306)/words"))
        ≤ 23)
mask_dsn-credentials_example =
    mask_dsn-credentials (runes "root") (runes "root") (runes "@tcp(db:3306)/words") (omega arith)
