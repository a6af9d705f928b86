-- ===== src/Tests/Agents.antt =====
-- A run of an agent, its sandbox and its captured output at concrete inputs.
use ai_agent_runner.Base.{String, ◌≡◌, refl, false, List, [], ◌∷◌, ltb}
use ai_agent_runner.Base.Lists.{length}
use ai_agent_runner.Base.Lists.Take.{take}
use ai_agent_runner.Base.Text.{codes}
use ai_agent_runner.Failure.{ok, err, error}
use ai_agent_runner.Redmine.FailureFinalizer.{timeout}
use ai_agent_runner.Agent.Handler.{
  AgentExecutionCapture, AgentPorts, started_failure, handle, Ends, handle-Ends,
}
use ai_agent_runner.Sandbox.Handler.{RepositoryCheckoutResult, SandboxPorts}
use ai_agent_runner.Sandbox.Handler
use ai_agent_runner.Sandbox.Handler.Once.{HandsOnce, handle-HandsOnce}
use ai_agent_runner.Sandbox.Capture.{
  Bytes, Value, text_value, byte_value, Capture, new_capture, append_all, snapshot,
}
use ai_agent_runner.Sandbox.Capture.Law.{stream_of, snapshot-append_all}
use ai_agent_runner.Tests.Sample.{sample_execution, sample_revision}

abbrev no_output : AgentExecutionCapture
no_output = record { text = ""; captured_bytes = 0; truncated = false }

abbrev small_checkout : RepositoryCheckoutResult
small_checkout = record {
  repository = "repo";
  source_revision = sample_revision;
  target_dir = "/work";
  head_revision = sample_revision;
}

abbrev agent_ports : AgentPorts
agent_ports = record {
  on_agent = λ h execution workspace sandbox. ok (started_failure timeout no_output no_output);
  on_failure = λ h execution outcome. ok tt;
  on_provisional = λ h execution result workspace checkout. ok tt;
}

handle-Ends_example :
    Ends agent_ports sample_execution "/work" small_checkout "box" []
      (handle agent_ports sample_execution "/work" small_checkout "box" []).0
      (handle agent_ports sample_execution "/work" small_checkout "box" []).1
handle-Ends_example = handle-Ends agent_ports sample_execution "/work" small_checkout "box" []

abbrev broken_sandbox : SandboxPorts
broken_sandbox = record {
  on_workspace = λ h id. ok "/work";
  on_checkout = λ h repository revision dir. err (error "no such revision");
  on_disk_limit = λ h path. ok tt;
  on_sandbox = λ h execution path. ok "box";
  on_next = λ h execution path checkout sandbox. err (error "unreachable");
  on_pre_agent_failure = λ h execution e. ok tt;
  on_dispose_sandbox = λ h sandbox reason. ok tt;
  on_dispose_workspace = λ h path. ok tt;
}

handle-HandsOnce_example :
    HandsOnce broken_sandbox sample_execution []
      (Handler.handle broken_sandbox sample_execution []).1
handle-HandsOnce_example = handle-HandsOnce broken_sandbox sample_execution []

abbrev small_capture : Capture
small_capture = record { max_bytes = 4; chunks = []; captured_bytes = 0; truncated = false }

small_capture-made : new_capture 4 ≡ ok small_capture
unfolding new_capture
small_capture-made = refl

abbrev small_values : List Value
small_values = byte_value (1 ∷ 2 ∷ 3 ∷ []) ∷ text_value "ab" ∷ []

abbrev name_of : Bytes → String
name_of bytes = "text"

snapshot-append_all_example :
    snapshot codes name_of (append_all codes name_of small_capture small_values) ≡ record {
      text = name_of (take 4 (stream_of codes name_of small_values));
      captured_bytes = length (take 4 (stream_of codes name_of small_values));
      truncated = ltb 4 (length (stream_of codes name_of small_values));
    }
snapshot-append_all_example =
    snapshot-append_all codes name_of 4 small_capture small_values small_capture-made
