-- ===== src/Startup/Logs.antt =====
-- setupLog of api-gateway/main.go: the level of the flag, the two files, and the three cores of the
-- logger. The file system is a parameter; the encoders and the permissions are left out.
use l.Prelude.{String, Bool, true, false, List, [], ◌∷◌, ◌==◌, if◌then◌else◌}
use l.Exec.{Exec, pure, wrapping, ◌>>◌}

-- The levels that setupLog names.
pub data Level : Type 0 where
  debug warn error : Level

-- The switch on the value of the flag `level`, which is "debug" if it is not given.
abbrev pub level_of : String → Level
level_of s =
    if s == "debug"
    then Level.debug
    else if s == "warn"
    then Level.warn
    else if s == "error"
    then Level.error
    else Level.debug

pub data Sink : Type 0 where
  all_log error_log stdout : Sink

-- zapcore.NewCore
pub record Core : Type 0 where
  pub json : Bool
  pub sink : Sink
  pub level : Level

pub record Files (S : Type 0) : Type 0 where
  pub mkdir_all : String → Exec S Unit
  -- os.OpenFile, to append to a file that is created if it is missing
  pub open_append : String → Exec S Unit

module _ {S : Type 0} (files : Files S) where
  -- An error is the panic with its text.
  unfoldable pub setup_log : String → Exec S (List Core)
  setup_log flag = do
    wrapping "Failed to create logs directory: " (files.mkdir_all "logs")
    wrapping "Failed to open all.log: " (files.open_append "logs/all.log")
    wrapping "Failed to open error.log: " (files.open_append "logs/error.log")
    pure (
        record { json = true; sink = Sink.all_log; level = level_of flag }
        ∷ record { json = true; sink = Sink.error_log; level = Level.error }
        ∷ record { json = false; sink = Sink.stdout; level = level_of flag }
        ∷ [])
