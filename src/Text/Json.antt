-- ===== src/Text/Json.antt =====
-- `json.dumps(value, ensure_ascii=False, separators=(",", ":"), sort_keys=True)` on values without
-- floats: `_canonical_json` of retail_context/production_telemetry.py and x402_payment.py.
use Prim.Native.Char.{Char, code}
use Prim.Native.String.{◌++◌, compare}
use Prim.Native.Nat.{Ordering}
use sharpe_nova_os.Prelude.{
  ℕ, zero, suc, ◌+◌, ◌/◌, ◌%◌, ◌≡◌, refl, Bool, true, false, List, [], ◌∷◌, String, ltb, eqb,
  if◌then◌else◌, ℤ, pos, negsuc, Option, none, some,
}

mutual
  pub data Json : Type 0 where
    null : Json
    bool : Bool → Json
    int : ℤ → Json
    str : String → Json
    arr : Items → Json
    obj : Fields → Json

  pub data Items : Type 0 where
    nil : Items
    cons : Json → Items → Items

  pub data Fields : Type 0 where
    end : Fields
    field : String → Json → Fields → Fields

digit : ℕ → String
digit d =
    if eqb d 0
    then "0"
    else if eqb d 1
    then "1"
    else if eqb d 2
    then "2"
    else if eqb d 3
    then "3"
    else if eqb d 4
    then "4"
    else if eqb d 5
    then "5"
    else if eqb d 6
    then "6"
    else if eqb d 7
    then "7"
    else if eqb d 8
    then "8"
    else "9"

-- The digits of `n` before those in `acc`; a number has fewer digits than its successor counts.
decimal_from : ℕ → ℕ → String → String
unfolding digit
decimal_from zero n acc = acc
decimal_from (suc f) n acc =
    let more = decimal_from f (n / 10) (digit (n % 10) ++ acc) in
    if ltb n 10 then digit n ++ acc else more

decimal : ℕ → String
unfolding decimal_from
decimal n = decimal_from (suc n) n ""

hex_digit : ℕ → String
unfolding digit
hex_digit d =
    if ltb d 10
    then digit d
    else if eqb d 10
    then "a"
    else if eqb d 11
    then "b"
    else if eqb d 12
    then "c"
    else if eqb d 13
    then "d"
    else if eqb d 14
    then "e"
    else "f"

-- One character of a text, as `json.dumps` escapes it.
escape_char : Char → String
unfolding hex_digit
escape_char ch =
    let c = code ch in
    if eqb c 34
    then "\\\""
    else if eqb c 92
    then "\\\\"
    else if eqb c 10
    then "\\n"
    else if eqb c 13
    then "\\r"
    else if eqb c 9
    then "\\t"
    else if eqb c 12
    then "\\f"
    else if eqb c 8
    then "\\b"
    else if ltb c 32
    then "\\u00" ++ hex_digit (c / 16) ++ hex_digit (c % 16)
    else String.◌∷◌ ch String.[]

escape : String → String
unfolding escape_char
escape String.[] = ""
escape (String.◌∷◌ c s) = escape_char c ++ escape s

quote_text : String → String
unfolding escape
quote_text s = "\"" ++ escape s ++ "\""

-- `sort_keys`: an insertion sort of the rendered members by their keys.
insert_member : String → String → List (String × String) → List (String × String)
insert_member k v [] = (k, v) ∷ []
insert_member k v ((j, w) ∷ ms) =
    let rest = insert_member k v ms in
    elim (compare j k) [ Ordering.gt ↦ (k, v) ∷ (j, w) ∷ ms | _ ↦ (j, w) ∷ rest ]

join_members : List (String × String) → String
unfolding quote_text
join_members [] = ""
join_members ((k, v) ∷ []) = quote_text k ++ ":" ++ v
join_members ((k, v) ∷ m ∷ ms) = quote_text k ++ ":" ++ v ++ "," ++ join_members (m ∷ ms)

render_int : ℤ → String
unfolding decimal
render_int (pos n) = decimal n
render_int (negsuc n) = "-" ++ decimal (n + 1)

mutual
  unfolding quote_text insert_member join_members render_int

  render : Json → String
  render null = "null"
  render (bool true) = "true"
  render (bool false) = "false"
  render (int n) = render_int n
  render (str s) = quote_text s
  render (arr xs) = "[" ++ render_items xs ++ "]"
  render (obj fs) = "{" ++ join_members (render_fields fs) ++ "}"

  render_items : Items → String
  render_items nil = ""
  render_items (cons x nil) = render x
  render_items (cons x (cons y ys)) = render x ++ "," ++ render_items (cons y ys)

  render_fields : Fields → List (String × String)
  render_fields end = []
  render_fields (field k v fs) = insert_member k (render v) (render_fields fs)

unfoldable pub canonical_json : Json → String
unfolding render
canonical_json v = render v

-- A nullable text: `None` is `null`.
abbrev pub opt_str : Option String → Json
opt_str none = null
opt_str (some s) = str s

-- A tuple of parts.
abbrev pub parts : List Json → Items
parts [] = nil
parts (x ∷ xs) = cons x (parts xs)

sorted_and_escaped :
    canonical_json
      (obj (field "limit" (int (pos 10)) (field "a\"b" null (field "count" (int (negsuc 2)) end))))
    ≡ "{\"a\\\"b\":null,\"count\":-3,\"limit\":10}"
unfolding canonical_json
sorted_and_escaped = refl
