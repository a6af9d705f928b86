-- ===== src/Tests/Handlers.antt =====
-- The handlers between a start and its end at concrete inputs.
use ai_agent_runner.Base.{[]}
use ai_agent_runner.Failure.{ok}
use ai_agent_runner.Sandbox.Handler.{SandboxPorts, timeout, handle}
use ai_agent_runner.Sandbox.Handler.Disposal.{Disposes, handle-Disposes}
use ai_agent_runner.Tests.Sample.{sample_execution}

abbrev sandbox_ports : SandboxPorts
sandbox_ports = record {
  on_workspace = λ h id. ok "/work";
  on_checkout = λ h repository revision dir. ok (record {
    repository = repository;
    source_revision = revision;
    target_dir = dir;
    head_revision = revision;
  });
  on_disk_limit = λ h path. ok tt;
  on_sandbox = λ h execution path. ok "sandbox";
  on_next = λ h execution path checkout sandbox. ok timeout;
  on_pre_agent_failure = λ h execution e. ok tt;
  on_dispose_sandbox = λ h sandbox reason. ok tt;
  on_dispose_workspace = λ h path. ok tt;
}

handle-Disposes_example :
    Disposes sandbox_ports sample_execution [] (handle sandbox_ports sample_execution []).1
handle-Disposes_example = handle-Disposes sandbox_ports sample_execution []
