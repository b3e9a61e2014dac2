-- ===== src/Json/Print.antt =====
-- `json.dumps(value, ensure_ascii=False, sort_keys=True, separators=(",", ":"))`.
use Prim.Native.Char.{Char, code}
use Prim.Native.String.{◌++◌ as ◌+++◌, compare}
use text.Mathlib.Text.{is_le}
use ctx_ttl_oss.Prelude.Sort.{sorted}
use ctx_ttl_oss.Json.{
  Json, Items, Fields, null, bool, int, negative, str, arr, obj, nil, cons, end, field,
}
use ctx_ttl_oss.Prelude.{
  ℕ, zero, suc, ◌+◌, ◌/◌, ◌%◌, String, ◌≡◌, refl, Bool, true, false, List, [], ◌∷◌, map, ◌==◌,
  nat_eq, string_eq, option_eq, list_eq, ltb, if◌then◌else◌,
}

digit : ℕ → String
digit n =
    if n == 0
    then "0"
    else if n == 1
    then "1"
    else if n == 2
    then "2"
    else if n == 3
    then "3"
    else if n == 4
    then "4"
    else if n == 5
    then "5"
    else if n == 6
    then "6"
    else if n == 7
    then "7"
    else if n == 8
    then "8"
    else "9"

-- the fuel `suc n` is enough: each round divides by ten
digits : ℕ → ℕ → String
unfolding digit
digits zero n = ""
digits (suc fuel) n =
    let rest = digits fuel (n / 10) +++ digit (n % 10) in if ltb n 10 then digit n else rest

unfoldable pub decimal : ℕ → String
unfolding digits
decimal n = digits (suc n) n

hex_digit : ℕ → String
unfolding digit
hex_digit n =
    if ltb n 10
    then digit n
    else if n == 10
    then "a"
    else if n == 11
    then "b"
    else if n == 12
    then "c"
    else if n == 13
    then "d"
    else if n == 14
    then "e"
    else "f"

-- a character inside a JSON text
unfoldable pub escape : Char → String
unfolding hex_digit
escape c =
    let n = code c in
    if n == 34
    then "\\\""
    else if n == 92
    then "\\\\"
    else if n == 10
    then "\\n"
    else if n == 13
    then "\\r"
    else if n == 9
    then "\\t"
    else if n == 8
    then "\\b"
    else if n == 12
    then "\\f"
    else if ltb n 32
    then "\\u00" +++ hex_digit (n / 16) +++ hex_digit (n % 16)
    else String.◌∷◌ c String.[]

unfoldable pub escape_all : String → String
unfolding escape
escape_all String.[] = ""
escape_all (String.◌∷◌ c s) = escape c +++ escape_all s

unfoldable pub quote : String → String
unfolding escape_all
quote s = "\"" +++ escape_all s +++ "\""

-- the parts with commas between them
join : List String → String
join [] = ""
join (x ∷ []) = x
join (x ∷ y ∷ ys) = x +++ "," +++ join (y ∷ ys)

field_text : String × String → String
unfolding quote
field_text (k, t) = quote k +++ ":" +++ t

abbrev key_le : String × String → String × String → Bool
key_le (j, _) (k, _) = is_le (compare j k)

object_text : List (String × String) → String
unfolding join field_text sorted
object_text fs = "{" +++ join (map field_text (sorted key_le fs)) +++ "}"

unfoldable mutual
  unfolding quote join decimal object_text

  pub dumps : Json → String
  dumps null = "null"
  dumps (bool true) = "true"
  dumps (bool false) = "false"
  dumps (int n) = decimal n
  dumps (negative n) = "-" +++ decimal (n + 1)
  dumps (str s) = quote s
  dumps (arr xs) = "[" +++ join (item_texts xs) +++ "]"
  dumps (obj fs) = object_text (field_texts fs)

  pub item_texts : Items → List String
  item_texts nil = []
  item_texts (cons x xs) = dumps x ∷ item_texts xs

  pub field_texts : Fields → List (String × String)
  field_texts end = []
  field_texts (field k v fs) = (k, dumps v) ∷ field_texts fs

dumps_sample :
    dumps
      (obj (field "b" (arr (cons (int 120) (cons (bool true) nil))) (field "a" (str "x\"\n") end)))
    ≡ "{\"a\":\"x\\\"\\n\",\"b\":[120,true]}"
unfolding dumps
dumps_sample = refl
