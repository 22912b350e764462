-- ===== src/Tests/Commands.antt =====
-- The command and the keyboard on concrete inputs, and the order of a registry.
use mathlib.Core.List.{Perm}
use windrunner.Prelude.{
  ◌≡◌, refl, Bool, true, false, Bytes, List, [], ◌∷◌, ◌++◌, some, codes, equal, has_prefix,
}
use windrunner.Prelude.Decimal.{decimal}
use windrunner.Prelude.Int.{pos}
use windrunner.Boundary.Stream.{joined}
use windrunner.Engine.Sessions.{sorted_sessions}
use windrunner.Engine.Sessions.Laws.{IsAscending, values, sorted_sessions-IsAscending}
use windrunner.Wire.Payloads.Responses.{SessionInfo, no_info}
use windrunner.Command.{
  found, matches, resolved, with_session, new_request, new_flags, without_dashes, or_shell, peeked,
  join, trim_line, trim_lines, split_lines, list_line, label_column, label_of, pad,
}
use windrunner.Command.Resolution.{IsOnly, with_session-IsOnly}
use windrunner.Client.Interactive.{keyboard}
use windrunner.Client.Interactive.Keyboard.{before_key, up_to_failure, joined-keyboard}
use windrunner.Tests.Histories.{first}

abbrev two : List SessionInfo
two = record no_info { id = codes "1a" } ∷ record no_info { id = codes "1b" } ∷ []

one_matches : with_session (codes "1b") two ≡ found (codes "1b")
unfolding with_session matches resolved has_prefix
one_matches = refl

with_session-IsOnly_example : IsOnly (codes "1b") (codes "1b") two
with_session-IsOnly_example = with_session-IsOnly (codes "1b") (codes "1b") two one_matches

-- The second read fails to be written, and the key comes behind it.
abbrev typed_reads : List (Bytes × Bool)
typed_reads = (1 ∷ 2 ∷ [], true) ∷ (3 ∷ [], false) ∷ (4 ∷ 17 ∷ [], true) ∷ []

joined-keyboard_example :
    joined (keyboard 17 typed_reads) ≡ before_key 17 (up_to_failure typed_reads)
joined-keyboard_example = joined-keyboard 17 typed_reads

sorted_sessions-IsAscending_example :
    IsAscending (sorted_sessions ((codes "id", first) ∷ []))
    × Perm (sorted_sessions ((codes "id", first) ∷ [])) (values ((codes "id", first) ∷ []))
sorted_sessions-IsAscending_example = sorted_sessions-IsAscending ((codes "id", first) ∷ [])

-- `windrunner new -name x -- top`, and what `peek` leaves of a screen.
named :
    (new_request []
      (some (pos 100, pos 30))
      []
      (codes "-name" ∷ codes "x" ∷ codes "--" ∷ codes "top" ∷ [])).metadata
    ≡ (codes "name", codes "x") ∷ []
unfolding new_request new_flags without_dashes or_shell equal
named = refl

trimmed : peeked (codes "a  " ++ (10 ∷ 32 ∷ 10 ∷ [])) ≡ codes "a" ++ (10 ∷ [])
unfolding peeked join trim_lines trim_line split_lines
trimmed = refl

listed :
    list_line (record no_info {
      id = codes "1a";
      alive = true;
      cols = pos 8;
      rows = pos 2;
      title = codes "t";
    })
    ≡ codes "1a  alive      -     8x2  t"
unfolding list_line label_column label_of pad equal decimal
listed = refl
