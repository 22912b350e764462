-- ===== src/Command/Dispatch.antt =====
-- cmd/windrunner/main.go: what main makes of the arguments, and what `attach` says at its end.
use windrunner.Prelude.{Bool, true, false, Bytes, List, [], ◌∷◌, ◌++◌, codes, equal, if◌then◌else◌}
use windrunner.Client.Interactive.{InteractiveResult, detached, session_exited, connection_lost}

abbrev crlf : Bytes
crlf = 13 ∷ 10 ∷ []

-- What the arguments ask for, or the usage text and exit status 2.
pub data Invocation : Type 0 where
  daemon ls usage : Invocation
  new : List Bytes → Invocation
  attach kill rm : Bytes → Invocation
  peek : Bool → Bytes → Invocation  -- with the escapes
  send : Bytes → List Bytes → Invocation
  events : Bool → Invocation  -- as JSON

-- The first test of `withSession`.
unfoldable pub one_of : (Bytes → Invocation) → List Bytes → Invocation
one_of command (prefix ∷ []) = command prefix
one_of command _ = usage

-- `runPeek`
unfoldable pub peek_of : List Bytes → Invocation
unfolding one_of
peek_of [] = usage
peek_of (arg ∷ args) =
    if equal arg (codes "-ansi") then one_of (peek true) args else one_of (peek false) (arg ∷ args)

-- `runSend`
unfoldable pub send_of : List Bytes → Invocation
send_of (prefix ∷ word ∷ words) = send prefix (word ∷ words)
send_of _ = usage

-- `runEvents`
unfoldable pub events_of : List Bytes → Invocation
events_of [] = events false
events_of (arg ∷ []) = if equal arg (codes "-json") then events true else usage
events_of _ = usage

-- `main`
unfoldable pub invocation : List Bytes → Invocation
unfolding one_of peek_of send_of events_of
invocation [] = usage
invocation (command ∷ args) =
    if equal command (codes "daemon")
    then daemon
    else if equal command (codes "new")
    then new args
    else if equal command (codes "ls")
    then ls
    else if equal command (codes "attach")
    then one_of attach args
    else if equal command (codes "peek")
    then peek_of args
    else if equal command (codes "send")
    then send_of args
    else if equal command (codes "events")
    then events_of args
    else if equal command (codes "kill")
    then one_of kill args
    else if equal command (codes "rm")
    then one_of rm args
    else usage

-- What `runAttach` prints behind the session.
unfoldable pub farewell : Bytes → InteractiveResult → Bytes
farewell id detached = crlf ++ (codes "[detached: " ++ (id ++ (codes "]" ++ crlf)))
farewell id session_exited = crlf ++ (codes "[session exited: " ++ (id ++ (codes "]" ++ crlf)))
farewell id connection_lost = crlf ++ (codes "[connection lost]" ++ crlf)
