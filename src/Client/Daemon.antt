-- ===== src/Client/Daemon.antt =====
-- client/client.go: `EnsureDaemon`, as the answers of the system come in.
use windrunner.Prelude.{Bool, true, false, Bytes, List, [], ◌∷◌, if◌then◌else◌}
use windrunner.Json.Struct.{is_empty}

-- How it ends; `starting` is for answers that are still to come.
pub data Ensured : Type 0 where
  connected no_command start_failed timed_out starting : Ensured

-- A round of the loop: does the socket answer, and is the deadline over.
pub record Round : Type 0 where
  pub answers : Bool
  pub late : Bool

unfoldable pub wait_for : List Round → Ensured
wait_for [] = starting
wait_for (round ∷ rounds) =
    let later = wait_for rounds in
    if round.answers then connected else if round.late then timed_out else later

-- `answers` is the first `Dial`, `started` says that the daemon's process has started, and the
-- second component that a process was to be started.
unfoldable pub ensure_daemon : Bool → List Bytes → Bool → List Round → Ensured × Bool
unfolding wait_for
ensure_daemon answers argv started rounds =
    if answers
    then (connected, false)
    else if is_empty argv
    then (no_command, false)
    else if started
    then (wait_for rounds, true)
    else (start_failed, true)
