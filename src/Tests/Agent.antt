-- ===== src/Tests/Agent.antt =====
-- The theorems on the agent's commands, at concrete data.
use proxy_gateway_console_pu.Tests.Sample.{host, no_files, toy}
use proxy_gateway_console_pu.GatewayAgent.Logs.Commands.{run_all-LogsRedacted}
use proxy_gateway_console_pu.GatewayAgent.Commands.{Command, start, lock_all, run_all}
use proxy_gateway_console_pu.Host.{Host}
use proxy_gateway_console_pu.Prelude.{List, [], ◌∷◌}
use proxy_gateway_console_pu.SessionStore.Log.{LogsRedacted}

abbrev runs : List (Host × Command)
runs = (host, start "192.168.1.5") ∷ (host, lock_all) ∷ []

run_all-LogsRedacted_example : LogsRedacted (run_all toy runs no_files)
run_all-LogsRedacted_example = run_all-LogsRedacted toy runs no_files (record { at_path = λ p. tt })
