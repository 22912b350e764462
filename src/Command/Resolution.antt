-- ===== src/Command/Resolution.antt =====
-- cmd/windrunner/main.go: which session a prefix stands for.
use windrunner.Prelude.{
  ◌≡◌, refl, ap, true, false, Bytes, List, [], ◌∷◌, ◌++◌, has_prefix, All, Bool-cases, inl, inr,
  arith,
}
use windrunner.Wire.Payloads.Responses.{SessionInfo}
use windrunner.Command.{found, matches, resolved, with_session}

abbrev pub Lacks : Bytes → SessionInfo → Type 0
Lacks prefix info = has_prefix info.id prefix ≡ false

matches_nil :
    (prefix : Bytes) (infos : List SessionInfo)
    → matches prefix infos ≡ []
    → All (Lacks prefix) infos
unfolding matches
matches_nil prefix [] h = tt
matches_nil prefix (info ∷ infos) h = ground (arith, matches_nil prefix infos)

-- The one session that a prefix stands for, among all that are listed.
pub record IsOnly (prefix id : Bytes) (sessions : List SessionInfo) : Type 0 where
  pub front : List SessionInfo
  pub info : SessionInfo
  pub back : List SessionInfo
  pub listed : sessions ≡ front ++ info ∷ back
  pub named : info.id ≡ id
  pub starts : has_prefix id prefix ≡ true
  pub front_lacks : All (Lacks prefix) front
  pub back_lacks : All (Lacks prefix) back

matches-one :
    (prefix id : Bytes) (infos : List SessionInfo)
    → matches prefix infos ≡ id ∷ []
    → IsOnly prefix id infos
unfolding matches
matches-one prefix id [] h = cc
matches-one prefix id (info ∷ infos) h = elim (Bool-cases (has_prefix info.id prefix)) [
  | inl starts ↦ record {
    front = [];
    info = info;
    back = infos;
    listed = refl;
    named = ground (arith, h);
    starts = ground (arith, h);
    front_lacks = tt;
    back_lacks = matches_nil prefix infos (ground (arith, h));
  }
  | inr other ↦
      let rest = matches-one prefix id infos (ground (arith, h)) in
      record {
        front = info ∷ rest.front;
        info = rest.info;
        back = rest.back;
        listed = ap (◌∷◌ info) rest.listed;
        named = rest.named;
        starts = rest.starts;
        front_lacks = (other, rest.front_lacks);
        back_lacks = rest.back_lacks;
      }
]

resolved-found :
    (prefix id : Bytes) (ids : List Bytes) → resolved prefix ids ≡ found id → ids ≡ id ∷ []
unfolding resolved
resolved-found prefix id [] h = cc
resolved-found prefix id (i ∷ []) h = ground (arith, h)
resolved-found prefix id (i ∷ j ∷ ids) h = cc

-- Where a prefix resolves to an id, a session with that id is listed and starts with the prefix,
-- and no other one that is listed does.
pub with_session-IsOnly :
    (prefix id : Bytes) (sessions : List SessionInfo)
    → with_session prefix sessions ≡ found id
    → IsOnly prefix id sessions
unfolding with_session
with_session-IsOnly prefix id sessions h =
    matches-one prefix id sessions (resolved-found prefix id (matches prefix sessions) h)
