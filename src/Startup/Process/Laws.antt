-- ===== src/Startup/Process/Laws.antt =====
-- How the process ends, and what it leaves open.
use censorhub.Prelude.{ℕ, ◌≡◌, ◌⊎◌, none, some, List, [], ◌∷◌, ◌++◌}
use censorhub.Text.{Text, Unicode}
use censorhub.Domain.Word.{SensitiveWord}
use censorhub.Automaton.{Edge}
use censorhub.Automaton.Levels.{VisitsAll}
use censorhub.Config.{Config}
use censorhub.Startup.{Server}
use censorhub.Startup.Started.{Started}
use censorhub.Startup.Process.{
  Surroundings, Resource, log, tracer, mysql, redis, background, Process, shut_down, poll_ended,
  grpc_ended, http_ended, shut_down,
}

-- What a complete start holds, the latest first.
abbrev pub all_held : List Resource → List Resource
all_held traced = background ∷ redis ∷ mysql ∷ traced ++ log ∷ []

abbrev pub IsComplete : List Resource → Type 0
IsComplete held = (held ≡ all_held []) ⊎ (held ≡ all_held (tracer ∷ []))

-- A process that a call of `log.Fatal` or `os.Exit` ended.
abbrev pub EndsBadly : {L : Type 0} → Process L → Type 0
EndsBadly p = (p.exit_code ≡ 1) × (p.closed ≡ []) × (p.server ≡ none)

module _ (order : ℕ → List Edge → List Edge) (visits_all : VisitsAll order) (u : Unicode)
    {L : Type 0} where
  -- A process that served until a signal.
  pub record EndsWell (cfg : Config) (out : Surroundings) (p : Process L) : Type 0 where
    pub code : p.exit_code ≡ 0
    pub words : List SensitiveWord
    pub read : out.words ≡ some words
    pub server : Server L
    pub served : p.server ≡ some server
    pub started : Started order visits_all u cfg words out.table server
    pub stopped : p.endings ≡ poll_ended ∷ grpc_ended out.drains ∷ http_ended ∷ []
    pub complete : IsComplete p.closed
