-- ===== src/Command.antt =====
-- cmd/windrunner/main.go: what the subcommands make of their arguments and of the daemon's replies.
-- The environment, the terminal and the files are the system's, and come in as arguments.
pub mod Dispatch
pub mod Resolution
use windrunner.Prelude.{
  ℕ, zero, suc, ◌==◌, Bool, true, false, not, ◌||◌, Bytes, List, [], ◌∷◌, ◌++◌, Option, none, some,
  codes, equal, has_prefix, if◌then◌else◌,
}
use windrunner.Prelude.Int.{ℤ, pos}
use windrunner.Json.Struct.{is_empty}
use windrunner.Wire.Payloads.{EventPayload}
use windrunner.Wire.Payloads.Requests.{Request, no_request}
use windrunner.Wire.Payloads.Responses.{SessionInfo}
use windrunner.Server.{print_ℤ}

-- What a prefix comes to.
pub data Resolved : Type 0 where
  found : Bytes → Resolved
  no_match : Bytes → Resolved
  ambiguous : Bytes → List Bytes → Resolved

-- The loop of `withSession`.
unfoldable pub matches : Bytes → List SessionInfo → List Bytes
matches prefix [] = []
matches prefix (info ∷ infos) =
    let rest = matches prefix infos in if has_prefix info.id prefix then info.id ∷ rest else rest

unfoldable pub resolved : Bytes → List Bytes → Resolved
resolved prefix [] = no_match prefix
resolved prefix (id ∷ []) = found id
resolved prefix (id ∷ id' ∷ ids) = ambiguous prefix (id ∷ id' ∷ ids)

-- `withSession`, of the sessions that the daemon lists
unfoldable pub with_session : Bytes → List SessionInfo → Resolved
unfolding matches resolved
with_session prefix sessions = resolved prefix (matches prefix sessions)

-- The arguments of `new`: the name, the peer flag, and what is left.
pub record NewArgs : Type 0 where
  pub name : Bytes
  pub peer : Bool
  pub rest : List Bytes

unfoldable pub new_flags : Bytes → Bool → List Bytes → NewArgs
new_flags name peer [] = record { name = name; peer = peer; rest = [] }
new_flags name peer (arg ∷ []) =
    if equal arg (codes "-peer")
    then record { name = name; peer = true; rest = [] }
    else record { name = name; peer = peer; rest = arg ∷ [] }
new_flags name peer (arg ∷ value ∷ args) = elim (equal arg (codes "-name")) [
  | true ↦ new_flags value peer args
  | false ↦ elim (equal arg (codes "-peer")) [
    | true ↦ new_flags name true (value ∷ args)
    | false ↦ record { name = name; peer = peer; rest = arg ∷ value ∷ args }
  ]
]

unfoldable pub without_dashes : List Bytes → List Bytes
without_dashes [] = []
without_dashes (arg ∷ args) = if equal arg (codes "--") then args else arg ∷ args

-- The shell where no command is given.
unfoldable pub or_shell : Bytes → List Bytes → Bytes × List Bytes
or_shell shell [] = (if equal shell [] then codes "/bin/sh" else shell, [])
or_shell shell (command ∷ args) = (command, args)

abbrev or_default : Option (ℤ × ℤ) → ℤ × ℤ
or_default none = (pos 80, pos 24)
or_default (some size) = size

-- `runNew`, up to `Spawn`: `shell` is $SHELL, `size` what the terminal tells, `dir` the directory.
unfoldable pub new_request : Bytes → Option (ℤ × ℤ) → Bytes → List Bytes → Request
unfolding new_flags without_dashes or_shell
new_request shell size dir args =
    let flags = new_flags [] false args in
    let (command, rest) = or_shell shell (without_dashes flags.rest) in
    let (cols, rows) = or_default size in
    record no_request {
      command = command;
      args = some rest;
      dir = dir;
      cols = cols;
      rows = rows;
      peer = flags.peer;
      metadata = if equal flags.name [] then [] else (codes "name", flags.name) ∷ [];
    }

-- `strings.Join`
unfoldable pub join : Bytes → List Bytes → Bytes
join separator [] = []
join separator (s ∷ []) = s
join separator (s ∷ s' ∷ ss) = s ++ (separator ++ join separator (s' ∷ ss))

-- The text that `send` types: the words, and Enter.
abbrev pub typed : List Bytes → Bytes
typed words = join (codes " ") words ++ 13 ∷ []

-- `peek`: blanks at the end of a line, and empty lines at the end, are dropped.
abbrev pub is_blank : ℕ → Bool
is_blank c = c == 32 || (c == 9 || c == 13)

abbrev add_unless_blank : ℕ → Bytes → Bytes
add_unless_blank c [] = if is_blank c then [] else c ∷ []
add_unless_blank c (d ∷ s) = c ∷ d ∷ s

unfoldable pub trim_line : Bytes → Bytes
trim_line [] = []
trim_line (c ∷ s) = add_unless_blank c (trim_line s)

abbrev add_unless_empty : Bytes → List Bytes → List Bytes
add_unless_empty [] [] = []
add_unless_empty line lines = line ∷ lines

unfoldable pub trim_lines : List Bytes → List Bytes
unfolding trim_line
trim_lines [] = []
trim_lines (line ∷ lines) = add_unless_empty (trim_line line) (trim_lines lines)

-- `strings.Split(s, "\n")`
unfoldable pub split_lines : Bytes → List Bytes
split_lines [] = [] ∷ []
split_lines (c ∷ s) = elim (c == 10) [
  | true ↦ [] ∷ split_lines s
  | false ↦ elim (split_lines s) [ [] ↦ (c ∷ []) ∷ [] | ◌∷◌ line lines ↦ (c ∷ line) ∷ lines ]
]

-- What `peek` prints of a rendered screen without its escapes.
unfoldable pub peeked : Bytes → Bytes
unfolding join trim_lines split_lines
peeked rendered = join (codes "\n") (trim_lines (split_lines rendered)) ++ codes "\n"

-- A line of `events`
unfoldable pub event_line : EventPayload → Bytes
event_line event =
    (event.type ++ (codes " " ++ event.session_id))
    ++ (if equal event.type (codes "spawned")
        then codes "  " ++ event.command
        else if equal event.type (codes "exited")
        then codes "  code=" ++ print_ℤ event.exit_code
        else [])

unfoldable pub label_of : List (Bytes × Bytes) → Bytes
label_of [] = []
label_of ((key, s) ∷ metadata) = if equal key (codes "name") then s else label_of metadata

-- The columns of `ls` in front of their padding: the state, the peer flag, and the label.
abbrev pub state_column : SessionInfo → Bytes
state_column info =
    if not info.alive
    then codes "exited(" ++ (print_ℤ info.exit_code ++ codes ")")
    else codes "alive"

abbrev pub peer_column : SessionInfo → Bytes
peer_column info = if info.peer then codes "peer" else codes "-"

unfoldable pub label_column : SessionInfo → Bytes
unfolding label_of
label_column info =
    let label = label_of info.metadata in if equal label [] then info.title else label

-- `%-10s` and `%-4s`: blanks up to a width
unfoldable pub pad : ℕ → Bytes → Bytes
pad zero s = s
pad (suc n) [] = 32 ∷ pad n []
pad (suc n) (c ∷ s) = c ∷ pad n s

-- A line of `ls`
unfoldable pub list_line : SessionInfo → Bytes
unfolding pad label_column
list_line info =
    info.id
    ++ (codes "  "
        ++ (pad 10 (state_column info)
            ++ (codes " "
                ++ (pad 4 (peer_column info)
                    ++ (codes "  "
                        ++ (print_ℤ info.cols
                            ++ (codes "x"
                                ++ (print_ℤ info.rows ++ (codes "  " ++ label_column info)))))))))

-- `socketPath`, of the variables that it reads and the directories that the system names
unfoldable pub socket_path : (Bytes → Bytes → Bytes) → Bytes → Bytes → Option Bytes → Bytes → Bytes
socket_path path_join windrunner_dir state_home home temp =
    let dir =
      if not (equal windrunner_dir [])
      then windrunner_dir
      else if not (equal state_home [])
      then path_join state_home (codes "windrunner")
      else elim home [
        | none ↦ path_join temp (codes "windrunner")
        | some home ↦
            path_join (path_join (path_join home (codes ".local")) (codes "state"))
              (codes "windrunner")
      ] in
    path_join dir (codes "daemon.sock")
