-- ===== src/Wire/Payloads/Requests/Lists.antt =====
-- wire/wire.go: the lists and the map of a Request in its JSON.
use windrunner.Prelude.{
  ◌≡◌, refl, sym, ap, ◌∙◌, Bool, true, false, not, ◌&&◌, Bytes, List, [], ◌∷◌, ◌++◌, append-nil,
  append_assoc, none, some, equal, equal_iff, if◌then◌else◌, All, arith,
}
use windrunner.Json.{arr, obj, Members, IsAscii, ArePlain, HasPlain}
use windrunner.Json.Struct.{
  Field, lookup, unless, is_empty, wrong, given, to_list, to_strings, to_map, put_key, strings,
  string_members,
}
use windrunner.Wire.Payloads.Requests.{set_map}
use windrunner.Wire.Payloads.Fields.{Takes, takes-set-unless, is_ascii, finds-field, is_empty_nil}

to_strings-strings : (ss : List Bytes) → to_strings (strings ss) ≡ some ss
unfolding to_strings
to_strings-strings [] = refl
to_strings-strings (s ∷ ss) =
    ap (λ o. elim o [ none ↦ none | some ss ↦ some (s ∷ ss) ]) (to_strings-strings ss)

pub to_list-strings : (ss : List Bytes) → to_list (arr (strings ss)) ≡ given (some ss)
unfolding to_list
to_list-strings ss =
    ap (λ o. elim o [ none ↦ wrong | some ss ↦ given (some ss) ]) (to_strings-strings ss)

pub strings-ArePlain : (ss : List Bytes) → All IsAscii ss → ArePlain (strings ss)
strings-ArePlain [] h = tt
strings-ArePlain (s ∷ ss) h = (h.0, strings-ArePlain ss h.1)

-- Metadata, as an association list.
unfoldable pub has_key : Bytes → List (Bytes × Bytes) → Bool
has_key key [] = false
has_key key ((k, s) ∷ rest) = if equal k key then true else has_key key rest

unfoldable pub is_map : List (Bytes × Bytes) → Bool
unfolding has_key
is_map [] = true
is_map ((key, s) ∷ rest) = not (has_key key rest) && is_map rest

abbrev pub IsAsciiMap : List (Bytes × Bytes) → Type 0
IsAsciiMap m = All (λ (p : Bytes × Bytes). IsAscii p.0 × IsAscii p.1) m

pub string_members-HasPlain :
    (m : List (Bytes × Bytes)) → IsAsciiMap m → HasPlain (string_members m)
string_members-HasPlain [] h = tt
string_members-HasPlain ((key, s) ∷ m) h = (h.0.0, h.0.1, string_members-HasPlain m h.1)

put_key-absent :
    (key s : Bytes) (m : List (Bytes × Bytes))
    → has_key key m ≡ false
    → put_key key s m ≡ m ++ (key, s) ∷ []
unfolding put_key has_key
put_key-absent key s [] h = refl
put_key-absent key s ((k, x) ∷ m) h = ground (arith, put_key-absent key s m)

has_key-append :
    (key k s : Bytes) (m : List (Bytes × Bytes))
    → has_key key (m ++ (k, s) ∷ []) ≡ (if has_key key m then true else equal k key)
unfolding has_key
has_key-append key k s [] = ground arith
has_key-append key k s ((k', x) ∷ m) = ground (arith, has_key-append key k s m)

-- None of the keys of one list stands in the other.
unfoldable apart : List (Bytes × Bytes) → List (Bytes × Bytes) → Bool
unfolding has_key
apart map [] = true
apart map ((key, s) ∷ rest) = not (has_key key map) && apart map rest

apart-append :
    (map rest : List (Bytes × Bytes)) (key s : Bytes)
    → has_key key rest ≡ false
    → apart map rest ≡ true
    → apart (map ++ (key, s) ∷ []) rest ≡ true
unfolding apart has_key
apart-append map [] key s absent h = refl
apart-append map ((k, x) ∷ rest) key s absent h = ground (
  arith,
  apart-append map rest key s,
  has_key-append k key s map,
  equal_iff k key,
  equal_iff key k,
)

to_map-string_members :
    (m map : List (Bytes × Bytes))
    → is_map m ≡ true
    → apart map m ≡ true
    → to_map (string_members m) map ≡ some (map ++ m)
unfolding to_map is_map apart
to_map-string_members [] map h d = ap some (sym (append-nil map))
to_map-string_members ((key, s) ∷ m) map h d =
    ap (to_map (string_members m)) (put_key-absent key s map (ground arith))
    ∙ to_map-string_members m (map ++ (key, s) ∷ []) (ground arith)
        (apart-append map m key s (ground arith) (ground arith))
    ∙ ap some (append_assoc map ((key, s) ∷ []) m)

apart_nil : (m : List (Bytes × Bytes)) → apart [] m ≡ true
unfolding apart has_key
apart_nil [] = refl
apart_nil ((key, s) ∷ m) = ground (arith, apart_nil m)

-- A map that was empty takes the members of another, and becomes it.
pub set_map-string_members {ℓ} :
    {R : Type ℓ} (current : R → List (Bytes × Bytes)) (update : R → List (Bytes × Bytes) → R)
    (m : List (Bytes × Bytes)) (r : R)
    → current r ≡ []
    → is_map m ≡ true
    → set_map current update (obj (string_members m)) r ≡ (update r m, true)
unfolding set_map
set_map-string_members current update m r blank h =
    ap (λ o. elim o [ none ↦ (r, false) | some map ↦ (update r map, true) ])
      (ap (to_map (string_members m)) blank ∙ to_map-string_members m [] h (apart_nil m))

pub takes-metadata {ℓ} :
    {R : Type ℓ} {strict : Bool} {fields : List (Field R)} {key : Bytes} {rest : Members} {r q : R}
    (current : R → List (Bytes × Bytes)) (update : R → List (Bytes × Bytes) → R)
    (m : List (Bytes × Bytes))
    → lookup key fields ≡ some (record { name = key; set = set_map current update })
    → is_ascii key ≡ true
    → current r ≡ []
    → r ≡ update r []
    → IsAsciiMap m
    → is_map m ≡ true
    → Takes strict fields rest (update r m) q
    → Takes strict fields (unless (is_empty m) key (obj (string_members m)) rest) r q
takes-metadata {r = r} current update m found ascii blank unset plain h others =
    takes-set-unless _ (update r m) (finds-field found ascii)
      (set_map-string_members current update m r blank h) (string_members-HasPlain m plain)
      (λ empty. unset ∙ ap (update r) (sym (is_empty_nil m empty))) others
