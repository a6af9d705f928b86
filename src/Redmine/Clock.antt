-- ===== src/Redmine/Clock.antt =====
-- The clock of the finalizers: `Date` is what JavaScript gives, here the text of `toISOString()`, and
-- none for an invalid date. `canonicalTimestamp` of src/redmine/execution-finalizer.ts and its
-- copies beside it differ in their messages.
use Prim.Native.String.{count}
use ai_agent_runner.Base.{String, Option, none, some, ◌&&◌, leb}
use ai_agent_runner.Base.Text.{is_rfc3339}
use ai_agent_runner.Failure.{Result, ok, err, error, ◌>>◌, require}
use ai_agent_runner.Exec.{Exec, call}
use ai_agent_runner.World.{Event, History, clock_read}

abbrev pub Clock : Type 0
Clock = History → Option String

abbrev pub read_clock : Clock → Exec Event (Option String)
read_clock clock = call clock_read (λ h. ok (clock h))

-- A text that passes the pattern is ASCII, so its length in code points is that of the source.
unfoldable pub canonical_date : String → String → Option String → Result String
canonical_date invalid outside none = err (error invalid)
canonical_date invalid outside (some output) = do
  require (is_rfc3339 output && leb (count output) 64) outside
  ok output
