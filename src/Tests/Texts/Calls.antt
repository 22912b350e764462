-- ===== src/Tests/Texts/Calls.antt =====
-- A client calls a daemon that has one session.
use windrunner.Prelude.{
  ℕ, ◌≡◌, refl, true, false, ◌&&◌, [], ◌∷◌, codes, equal, none, some, if◌then◌else◌, arith, inl,
}
use windrunner.Wire.Payloads.Requests.Lists.{is_map, has_key}
use windrunner.Session
use windrunner.Session.{next_seq}
use windrunner.Engine.{Engine, new_engine, find}
use windrunner.Wire.Payloads.{marshal}
use windrunner.Wire.Payloads.Requests.{Request, no_request, request_fields}
use windrunner.Wire.Payloads.Requests.RoundTrip.{IsSendable}
use windrunner.Server.{Answers, describe}
use windrunner.Server.Connection.{Turn, serve}
use windrunner.Server.Handle.{handle, handle_set_metadata, set_session_metadata, set_conditionally}
use windrunner.Server.Loop.{serve_ends, ran_out}
use windrunner.Json.{bool, str, no_members, member}
use windrunner.Json.Struct.{lookup, fold_key}
use windrunner.Wire.Payloads.Fields.{Takes, takes-string, takes-nil, finds}
use windrunner.Server.Requests.{decode_request}
use windrunner.Server.Decoding.{decode_request-unknown, too_old}
use windrunner.Server.Input.{writes, lines, accepts, expected_writes, handle-writes}
use windrunner.Server.Replies.{is_some, describes}
use windrunner.Client.{
  session_of, unless_conflict, snapshot_of, value, judged, call, conditional_request,
  set_metadata_if,
}
use windrunner.Client.Remote.{link, daemon, carried_out, IsCarried, call-handle}
use windrunner.Client.Calls.{ask, panics, set_metadata_if-call, call_complete}
use windrunner.Tests.Histories.{plain, first}
use windrunner.Tests.Texts.{tokens, print_json, print_chars}

abbrev system : Answers
system = record {
  new_id = some (codes "new");
  environ = [];
  started = true;
  sized = true;
  signalled = true;
  written = true;
  accepted = 0;
  failure = [];
}

abbrev quiet : ℕ → Turn plain
quiet n = record { meanwhile = λ e. e; answers = system; takes = true }

abbrev hosts : Engine plain
hosts = record (new_engine plain) { sessions = (codes "id", first) ∷ [] }

abbrev labelled : Request
labelled = conditional_request (codes "id") ((codes "name", codes "x") ∷ []) 1

labelled-IsSendable : IsSendable labelled
unfolding is_map has_key
labelled-IsSendable = record {
  op = ground arith;
  command = tt;
  args = tt;
  dir = tt;
  env = tt;
  env_override = tt;
  scrollback = refl;
  metadata = ground arith;
  metadata_is_map = refl;
  idle_after_ms = refl;
  cols = refl;
  rows = refl;
  id = ground arith;
  from = tt;
  if_revision = (refl, tt);
}

labelled-IsCarried : IsCarried tokens plain true quiet hosts labelled
unfolding tokens print_json print_chars handle handle_set_metadata set_session_metadata
    set_conditionally Session.set_metadata_if find equal describe is_map has_key
labelled-IsCarried = record {
  request = labelled-IsSendable;
  request_fits = omega arith;
  response = record {
    error = tt;
    session = (
      record {
        id = ground arith;
        command = tt;
        exit_code = refl;
        cols = refl;
        rows = refl;
        title = tt;
        metadata = ground arith;
        metadata_is_map = refl;
        revision = refl;
      },
      tt,
    );
    sessions = tt;
    snapshot = tt;
  };
  goes_out = refl;
}

call-handle_example :
    call tokens link (daemon tokens plain true quiet hosts) [] labelled
    ≡ judged (carried_out tokens plain true quiet hosts labelled).response
call-handle_example = call-handle tokens plain true quiet hosts labelled labelled-IsCarried

is_hosted : find plain (codes "id") hosts.sessions ≡ some first
unfolding find equal
is_hosted = refl

set_metadata_if-call_example :
    set_metadata_if
      (ask tokens plain true quiet hosts)
      (codes "id")
      ((codes "name", codes "x") ∷ [])
      1
    ≡ value (
        describe
          (record first { metadata = (codes "name", codes "x") ∷ []; revision = next_seq 1 }))
set_metadata_if-call_example =
    set_metadata_if-call tokens plain true quiet hosts (codes "id") ((codes "name", codes "x") ∷ [])
      1 first labelled-IsCarried is_hosted

call_complete_example :
    (describes labelled.op && panics (session_of (ask tokens plain true quiet hosts labelled))
      ≡ false)
    × (describes labelled.op
          && panics (unless_conflict (ask tokens plain true quiet hosts labelled))
        ≡ false)
    × (equal labelled.op (codes "snapshot")
          && panics (snapshot_of (ask tokens plain true quiet hosts labelled))
        ≡ false)
call_complete_example = call_complete tokens plain true quiet hosts labelled labelled-IsCarried

abbrev dictated : Request
dictated = record no_request { op = codes "input"; id = codes "id"; bytes = codes "ls" }

handle-writes_example :
    (writes (handle tokens plain true system dictated hosts).effects
      ≡ expected_writes system dictated
          (equal dictated.op (codes "input") && accepts (find plain dictated.id hosts.sessions)))
    × (lines (handle tokens plain true system dictated hosts).effects ≡ (
        if true
          && (equal dictated.op (codes "input") && is_some (find plain dictated.id hosts.sessions))
        then 1
        else 0))
handle-writes_example = handle-writes tokens plain true system dictated hosts

serve_ends_example :
    (ran_out (serve tokens plain true 3 quiet 0 hosts (1 ∷ 0 ∷ [])).ending ≡ false)
    × (serve tokens plain true 3 quiet 0 hosts (1 ∷ 0 ∷ [])
        ≡ serve tokens plain true 4 quiet 0 hosts (1 ∷ 0 ∷ []))
serve_ends_example =
    serve_ends tokens plain true quiet 3 4 0 hosts (1 ∷ 0 ∷ []) (omega arith) (omega arith)

before :
    Takes true
      (request_fields tokens)
      (member (codes "op") (str (codes "list")) no_members)
      no_request
      (record no_request { op = codes "list" })
unfolding lookup fold_key equal
before = takes-string (codes "list") (finds refl refl) (ground arith) takes-nil

unknown : lookup (codes "colour") (request_fields tokens) ≡ none
unfolding lookup fold_key equal
unknown = refl

decode_request-unknown_example :
    decode_request tokens (
      marshal tokens
        (member (codes "op") (str (codes "list")) (member (codes "colour") (bool true) no_members)))
    ≡ inl (too_old (codes "colour"))
decode_request-unknown_example =
    decode_request-unknown tokens (member (codes "op") (str (codes "list")) no_members) no_members
      (codes "colour") (bool true) (record no_request { op = codes "list" }) before unknown
      (ground arith) tt tt
