-- ===== src/Tests/Texts.antt =====
-- A syntax for trees that obeys the laws of Text: a tree is a run of tokens in postfix order, two
-- numbers each, and base64 writes a byte in unary.
mod Calls
mod Feeds
mod Panes
use windrunner.Prelude.{
  ℕ, zero, suc, ◌+◌, ◌==◌, ◌≡◌, ◌≢◌, refl, sym, ap, ap₂, ◌∙◌, Bool, true, false, ◌&&◌, Bytes, List,
  [], ◌∷◌, ◌++◌, append_assoc, append-nil, Option, none, some, All, All-append, codes,
  if◌then◌else◌, arith,
}
use windrunner.Prelude.Int.{ℤ, pos, negsuc}
use windrunner.Json.{
  Json, null, bool, num, real, str, arr, obj, Items, no_items, item, Members, no_members, member,
  IsAscii, IsPlain, ArePlain, HasPlain, IsPlainText, JsonError, syntax, mismatch, unknown_field,
  Text,
}

data Part : Type 0 where
  json : Json → Part
  items : Items → Part
  members : Members → Part
  chars : Bytes → Part

print_chars : Bytes → Bytes
print_chars [] = 0 ∷ 0 ∷ []
print_chars (c ∷ s) = print_chars s ++ (1 ∷ c ∷ [])

mutual
  unfolding print_chars

  print_json : Json → Bytes
  print_json null = 2 ∷ 0 ∷ []
  print_json (bool b) = 3 ∷ (if b then 1 else 0) ∷ []
  print_json (num (pos n)) = 4 ∷ n ∷ []
  print_json (num (negsuc n)) = 5 ∷ n ∷ []
  print_json (real s) = []
  print_json (str s) = print_chars s ++ (6 ∷ 0 ∷ [])
  print_json (arr js) = print_items js ++ (9 ∷ 0 ∷ [])
  print_json (obj fields) = print_members fields ++ (12 ∷ 0 ∷ [])

  print_items : Items → Bytes
  print_items no_items = 7 ∷ 0 ∷ []
  print_items (item j js) = print_items js ++ (print_json j ++ (8 ∷ 0 ∷ []))

  print_members : Members → Bytes
  print_members no_members = 10 ∷ 0 ∷ []
  print_members (member key j fields) =
      print_members fields ++ (print_json j ++ (print_chars key ++ (11 ∷ 0 ∷ [])))

add_char : ℕ → List Part → List Part
add_char x (chars s ∷ parts) = chars (x ∷ s) ∷ parts
add_char x _ = []

end_str : List Part → List Part
end_str (chars s ∷ parts) = json (str s) ∷ parts
end_str _ = []

add_item : List Part → List Part
add_item (json j ∷ items js ∷ parts) = items (item j js) ∷ parts
add_item _ = []

end_arr : List Part → List Part
end_arr (items js ∷ parts) = json (arr js) ∷ parts
end_arr _ = []

add_member : List Part → List Part
add_member (chars key ∷ json j ∷ members fields ∷ parts) = members (member key j fields) ∷ parts
add_member _ = []

end_obj : List Part → List Part
end_obj (members fields ∷ parts) = json (obj fields) ∷ parts
end_obj _ = []

step : ℕ → ℕ → List Part → List Part
unfolding add_char end_str add_item end_arr add_member end_obj
step t x parts =
    if t == 0
    then chars [] ∷ parts
    else if t == 1
    then add_char x parts
    else if t == 2
    then json null ∷ parts
    else if t == 3
    then json (bool (x == 1)) ∷ parts
    else if t == 4
    then json (num (pos x)) ∷ parts
    else if t == 5
    then json (num (negsuc x)) ∷ parts
    else if t == 6
    then end_str parts
    else if t == 7
    then items no_items ∷ parts
    else if t == 8
    then add_item parts
    else if t == 9
    then end_arr parts
    else if t == 10
    then members no_members ∷ parts
    else if t == 11
    then add_member parts
    else end_obj parts

run : Bytes → List Part → List Part
unfolding step
run [] parts = parts
run (t ∷ []) parts = []
run (t ∷ x ∷ s) parts = run s (step t x parts)

run-print_chars :
    (s rest : Bytes) (parts : List Part)
    → run (print_chars s ++ rest) parts ≡ run rest (chars s ∷ parts)
unfolding run print_chars step add_char
run-print_chars [] rest parts = refl
run-print_chars (c ∷ s) rest parts =
    ap (λ t. run t parts) (append_assoc (print_chars s) (1 ∷ c ∷ []) rest)
    ∙ run-print_chars s (1 ∷ c ∷ rest) parts

mutual
  unfolding run print_json step add_char end_str add_item end_arr add_member end_obj

  run-print_json :
      (j : Json) (rest : Bytes) (parts : List Part)
      → IsPlain j
      → run (print_json j ++ rest) parts ≡ run rest (json j ∷ parts)
  run-print_json null rest parts h = refl
  run-print_json (bool true) rest parts h = refl
  run-print_json (bool false) rest parts h = refl
  run-print_json (num (pos n)) rest parts h = refl
  run-print_json (num (negsuc n)) rest parts h = refl
  run-print_json (real s) rest parts h = absurd h
  run-print_json (str s) rest parts h =
      ap (λ t. run t parts) (append_assoc (print_chars s) (6 ∷ 0 ∷ []) rest)
      ∙ run-print_chars s (6 ∷ 0 ∷ rest) parts
  run-print_json (arr js) rest parts h =
      ap (λ t. run t parts) (append_assoc (print_items js) (9 ∷ 0 ∷ []) rest)
      ∙ run-print_items js (9 ∷ 0 ∷ rest) parts h
  run-print_json (obj fields) rest parts h =
      ap (λ t. run t parts) (append_assoc (print_members fields) (12 ∷ 0 ∷ []) rest)
      ∙ run-print_members fields (12 ∷ 0 ∷ rest) parts h

  run-print_items :
      (js : Items) (rest : Bytes) (parts : List Part)
      → ArePlain js
      → run (print_items js ++ rest) parts ≡ run rest (items js ∷ parts)
  run-print_items no_items rest parts h = refl
  run-print_items (item j js) rest parts h =
      ap (λ t. run t parts)
        (append_assoc (print_items js) (print_json j ++ (8 ∷ 0 ∷ [])) rest
          ∙ ap (λ t. print_items js ++ t) (append_assoc (print_json j) (8 ∷ 0 ∷ []) rest))
      ∙ run-print_items js (print_json j ++ (8 ∷ 0 ∷ rest)) parts h.1
      ∙ run-print_json j (8 ∷ 0 ∷ rest) (items js ∷ parts) h.0

  run-print_members :
      (fields : Members) (rest : Bytes) (parts : List Part)
      → HasPlain fields
      → run (print_members fields ++ rest) parts ≡ run rest (members fields ∷ parts)
  run-print_members no_members rest parts h = refl
  run-print_members (member key j fields) rest parts h =
      ap (λ t. run t parts)
        (append_assoc (print_members fields) _ rest
          ∙ ap (λ t. print_members fields ++ t)
              (append_assoc (print_json j) _ rest
                ∙ ap (λ t. print_json j ++ t) (append_assoc (print_chars key) (11 ∷ 0 ∷ []) rest)))
      ∙ run-print_members fields (print_json j ++ (print_chars key ++ (11 ∷ 0 ∷ rest))) parts h.2
      ∙ run-print_json j (print_chars key ++ (11 ∷ 0 ∷ rest)) (members fields ∷ parts) h.1
      ∙ run-print_chars key (11 ∷ 0 ∷ rest) (json j ∷ members fields ∷ parts)

result : List Part → Option Json
result (json j ∷ []) = some j
result _ = none

parse_tokens : Bytes → Option Json
unfolding result run
parse_tokens s = result (run s [])

parse-print_json : (j : Json) → IsPlain j → parse_tokens (print_json j) ≡ some j
unfolding parse_tokens run result
parse-print_json j h =
    ap (λ t. result (run t [])) (sym (append-nil (print_json j)))
    ∙ ap result (run-print_json j [] [] h)

unary : ℕ → Bytes → Bytes
unary zero rest = b'B' ∷ rest
unary (suc n) rest = b'A' ∷ unary n rest

encode : Bytes → Bytes
unfolding unary
encode [] = []
encode (c ∷ s) = unary c (encode s)

decode : ℕ → Bytes → Bytes
decode n [] = []
decode n (c ∷ s) = if c == b'B' then n ∷ decode 0 s else decode (suc n) s

decode-unary : (c n : ℕ) (rest : Bytes) → decode n (unary c rest) ≡ (n + c) ∷ decode 0 rest
unfolding decode unary
decode-unary zero n rest = ap (λ m. m ∷ decode 0 rest) (omega arith)
decode-unary (suc c) n rest =
    decode-unary c (suc n) rest ∙ ap (λ m. m ∷ decode 0 rest) (omega arith)

decode-encode : (s : Bytes) → decode 0 (encode s) ≡ s
unfolding decode encode
decode-encode [] = refl
decode-encode (c ∷ s) = decode-unary c 0 (encode s) ∙ ap₂ (◌∷◌) (omega arith) (decode-encode s)

unary-IsAscii : (c : ℕ) (rest : Bytes) → IsAscii rest → IsAscii (unary c rest)
unfolding unary
unary-IsAscii zero rest h = (ground arith, h)
unary-IsAscii (suc c) rest h = (ground arith, unary-IsAscii c rest h)

encode-IsAscii : (s : Bytes) → IsAscii (encode s)
unfolding encode
encode-IsAscii [] = tt
encode-IsAscii (c ∷ s) = unary-IsAscii c (encode s) (encode-IsAscii s)

abbrev quoted : Bytes → Bytes
quoted s = b'"' ∷ s ++ b'"' ∷ []

reason_of : Bytes → JsonError → Bytes
reason_of payload syntax = codes "syntax"
reason_of payload mismatch = codes "mismatch"
reason_of payload (unknown_field key) = codes "json: unknown field " ++ quoted key

abbrev tokens : Text
unfolding parse_tokens encode decode reason_of
tokens = record {
  print = print_json;
  parse = parse_tokens;
  parse_first = parse_tokens;
  base64 = encode;
  unbase64 = λ s. some (decode 0 s);
  quote = quoted;
  reason = reason_of;
  parse-print = parse-print_json;
  parse_first-print = parse-print_json;
  unbase64-base64 = λ s. ap some (decode-encode s);
  base64-IsAscii = encode-IsAscii;
  quote-IsPlainText = λ s plain. refl;
  reason-unknown_field = λ payload key. refl;
}
