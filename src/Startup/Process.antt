-- ===== src/Startup/Process.antt =====
-- The process of cmd/server/main.go from the arguments to its end: what it opens, what `defer` closes
-- and in which order the shutdown stops the parts. What the outside replies is an argument; the
-- listeners are those of both servers, and a signal comes where they go on.
pub mod Laws
use censorhub.Prelude.{ℕ, Bool, true, false, Option, none, some, List, [], ◌∷◌, if◌then◌else◌}
use censorhub.Text.{Text, Unicode}
use censorhub.Domain.Word.{SensitiveWord}
use censorhub.Automaton.{Edge}
use censorhub.Words.Table.{WordTable}
use censorhub.Words.Poll.{WordFingerprint}
use censorhub.Config.{Config}
use censorhub.Config.Load.{Viper, loaded, not_loaded, load_with_env}
use censorhub.Connections.{
  new_logger, Tracer, no_tracer, tracer_at, init_tracer, new_mysql, new_redis,
}
use censorhub.Startup.{Server, start_up}

pub record Surroundings : Type 0 where
  pub opens_file : Text → Bool
  pub exporter : Bool
  pub resource : Bool
  pub opens_mysql : Bool
  pub gives_db : Bool
  pub migrates : Bool
  pub pings : Bool
  pub words : Option (List SensitiveWord)
  pub print : Option WordFingerprint
  pub table : WordTable
  pub listens : Bool
  pub drains : Bool

-- What a `defer` of main closes; the context is that of the tasks in the background.
pub data Resource : Type 0 where
  log tracer mysql redis background : Resource

-- A step of the start: `none` ends the process, and a resource is held from then on.
abbrev pub Stage : Type 0
Stage = Option (Option Resource)

unfoldable pub holds : {A : Type 0} → Resource → Option A → Stage
holds r none = none
holds r (some a) = some (some r)

-- Without a tracer the process goes on, with a clean-up that does nothing.
unfoldable pub tracer_stage : Option Tracer → Stage
tracer_stage none = some none
tracer_stage (some no_tracer) = some none
tracer_stage (some (tracer_at endpoint)) = some (some tracer)

unfoldable pub run_stages : List Stage → List Resource → List Resource × Bool
run_stages [] held = (held, true)
run_stages (none ∷ stages) held = (held, false)
run_stages (some none ∷ stages) held = run_stages stages held
run_stages (some (some r) ∷ stages) held = run_stages stages (r ∷ held)

pub data Ending : Type 0 where
  poll_ended http_ended : Ending
  grpc_ended : Bool → Ending

-- The held resources, the latest first; those that were closed, in that order; and the shutdown.
pub record Process (L : Type 0) : Type 0 where
  pub exit_code : ℕ
  pub held : List Resource
  pub closed : List Resource
  pub endings : List Ending
  pub server : Option (Server L)

-- `os.Exit` and `log.Fatal` run no deferred function.
abbrev pub fatal : {L : Type 0} → List Resource → Process L
fatal held = record { exit_code = 1; held = held; closed = []; endings = []; server = none }

-- The poll, the gRPC server, gracefully or after five seconds not, and the HTTP server.
unfoldable pub shut_down : Surroundings → List Ending
shut_down out = poll_ended ∷ grpc_ended out.drains ∷ http_ended ∷ []

module _ {Z : Type 0} (info : Z) (unmarshal : Text → Option Z) where
  unfoldable pub stages_of : Config → Surroundings → List Stage
  unfolding holds tracer_stage new_logger init_tracer new_mysql new_redis
  stages_of cfg out =
      holds log (new_logger info unmarshal cfg.log out.opens_file)
      ∷ tracer_stage (init_tracer cfg out.exporter out.resource)
      ∷ holds mysql (new_mysql cfg out.opens_mysql out.gives_db)
      ∷ (if out.migrates then some none else none)
      ∷ holds redis (new_redis cfg out.pings)
      ∷ some (some background)
      ∷ []

module _ (order : ℕ → List Edge → List Edge) (u : Unicode) {L : Type 0} where
  unfoldable pub run_server : Config → Surroundings → List Resource → Process L
  unfolding start_up shut_down
  run_server cfg out held = elim (start_up order u {L = L} cfg out.words out.print out.table) [
    | none ↦ record { exit_code = 2; held = held; closed = held; endings = []; server = none }
    | some none ↦ fatal held
    | some (some server) ↦
        if out.listens
        then record {
          exit_code = 0;
          held = held;
          closed = held;
          endings = shut_down out;
          server = some server;
        }
        else fatal held
  ]

  module _ {V Z : Type 0} (viper : Viper V) (info : Z) (unmarshal : Text → Option Z) where
    unfoldable pub run_main : Text → Text → Text → Surroundings → Process L
    unfolding load_with_env run_stages stages_of run_server
    run_main app_env path env out = elim (load_with_env viper app_env path env) [
      | not_loaded e ↦ fatal []
      | loaded cfg ↦
          let (held, connected) = run_stages (stages_of info unmarshal cfg out) [] in
          if connected then run_server cfg out held else fatal held
    ]
