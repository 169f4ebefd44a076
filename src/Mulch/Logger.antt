-- ===== src/Mulch/Logger.antt =====
-- mulch/logger.go: what the default logger hands to the `log` package, if anything; `text` is the
-- line that the format and its arguments give.
use Prim.Native.String.{String, ◌++◌}
use wsp.Base.{Bool, Option, none, some, if◌then◌else◌}

abbrev pub print_unless : Bool → String → Option String
print_unless silent line = if silent then none else some line

-- `Debugf`
abbrev pub debugf : Bool → String → Option String
debugf silent text = print_unless silent ("[DEBUG] " ++ text)

-- `Errorf`
abbrev pub errorf : Bool → String → Option String
errorf silent text = print_unless silent ("[ERROR] " ++ text)

-- `Printf`
abbrev pub printf : Bool → String → Option String
printf silent text = print_unless silent ("[INFO] " ++ text)
