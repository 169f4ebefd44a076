-- ===== src/App/Logs.antt =====
-- logging.go: where the log lines go, and the format of the access log. A text is the list of its
-- code points; a map is the list of its entries in the order in which a loop meets them.
pub mod Format
use Prim.Native.String
use wsp.Base.{ℕ, Bool, true, false, ◌||◌, List, [], ◌∷◌, ◌++◌, Option, none, some, if◌then◌else◌}
use wsp.Base.Int.{ℤ, pos, ltb_ℤ}
use wsp.Runtime.{Result, ok, panics, by_the_code}
use wsp.App.Paths.{codes, same}
use wsp.App.Upstreams.{Text}

-- An output of a logger: a stream, or a file that is rotated at so many megabytes, with the number
-- of files that are kept.
pub data Sink : Type 0 where
  stdout stderr : Sink
  rotated : Text → ℤ → ℤ → Sink

-- `Config`, as far as `SetupLogs` reads it.
pub record LogConfig : Type 0 where
  pub log_file : Text
  pub log_files : ℤ
  pub log_file_mb : ℤ
  pub http_log : Text
  pub http_logs : ℤ
  pub http_log_mb : ℤ

-- The outputs of the loggers `log` and `httpLog`, and of `os.Stderr`.
pub record Logs : Type 0 where
  pub app : Sink
  pub http : Sink
  pub errors : Sink

abbrev pub is_blank : Text → Bool
is_blank [] = true
is_blank (c ∷ s) = false

-- The access log has no file of its own.
abbrev pub shares : LogConfig → Bool
shares c = is_blank c.http_log || ltb_ℤ c.http_log_mb (pos 1)

-- `SetupLogs`; `opens` says whether `rotatorr.NewMust` can open a file, and it panics otherwise.
unfoldable pub setup_logs : (Text → Bool) → LogConfig → Result Logs
setup_logs opens c =
    let own = rotated c.http_log c.http_log_mb c.http_logs in
    let file = rotated c.log_file c.log_file_mb c.log_files in
    if (if shares c then true else opens c.http_log)
    then (if is_blank c.log_file
        then ok (record { app = stderr; http = if shares c then stdout else own; errors = stderr })
        else if opens c.log_file
        then ok (record { app = file; http = if shares c then file else own; errors = file })
        else panics by_the_code)
    else panics by_the_code

-- `m[key]` of a map of texts, where a missing key gives the empty text.
abbrev pub value_of : Text → List (Text × Text) → Text
value_of key [] = []
value_of key (entry ∷ m) = if same entry.0 key then entry.1 else value_of key m

-- The function `add` of `ApacheLogFormat`.
abbrev pub field : Text → Text
field [] = codes "-"
field (c ∷ s) = codes "%{" ++ (c ∷ s) ++ codes "}i"

-- A header in the loop of `ApacheLogFormat`.
abbrev pub other_field : Text × Text → Text
other_field entry = codes " \"" ++ entry.0 ++ codes ":%{" ++ entry.1 ++ codes "}i\""

-- The loop over the headers.
unfoldable pub other_fields : List (Text × Text) → Text
other_fields [] = []
other_fields (entry ∷ m) =
    (if same entry.0 (codes "uid") || same entry.0 (codes "name") then [] else other_field entry)
    ++ other_fields m

abbrev pub quoted_id : Text → Text
quoted_id [] = []
quoted_id (c ∷ s) = codes "\"%{" ++ (c ∷ s) ++ codes "}i\""

-- `ApacheLogFormat`
unfoldable pub apache_log_format : Text → List (Text × Text) → Text
apache_log_format id_header [] =
    codes "%h - - %t \"%r\" %>s %b "
    ++ quoted_id id_header
    ++ codes " \"%{User-agent}i\" - %{ms}Tms"
apache_log_format id_header (entry ∷ m) =
    codes "%h "
    ++ field (value_of (codes "uid") (entry ∷ m))
    ++ codes " "
    ++ field (value_of (codes "name") (entry ∷ m))
    ++ codes " %t \"%r\" %>s %b \""
    ++ field id_header
    ++ codes "\" \"%{User-agent}i\" - %{ms}Tms"
    ++ other_fields (entry ∷ m)
