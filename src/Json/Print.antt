-- ===== src/Json/Print.antt =====
-- `json.dumps(…, sort_keys=True, separators=(",", ":"))`, as `StateDB` calls it before hashing.
pub mod Quote
use Prim.Native.Char.{Char, code}
use Prim.Native.String.{String, [], ◌∷◌}
use immutavault.Json.{Json, Items, Fields, null, bool, num, str, arr, obj, nil, cons, end, field}
use immutavault.Prelude.{
  ℕ, zero, suc, ◌+◌, ◌-◌, ◌/◌, ◌%◌, true, false, Option, none, some, ◌&&◌, eqb, ltb, leb,
  if◌then◌else◌,
}
use immutavault.Prelude.Order.{str_ltb}

-- one digit of `{0:04x}`, and of a decimal number
hex_digit : ℕ → Char
hex_digit d =
    if eqb d 0
    then "0"
    else if eqb d 1
    then "1"
    else if eqb d 2
    then "2"
    else if eqb d 3
    then "3"
    else if eqb d 4
    then "4"
    else if eqb d 5
    then "5"
    else if eqb d 6
    then "6"
    else if eqb d 7
    then "7"
    else if eqb d 8
    then "8"
    else if eqb d 9
    then "9"
    else if eqb d 10
    then "a"
    else if eqb d 11
    then "b"
    else if eqb d 12
    then "c"
    else if eqb d 13
    then "d"
    else if eqb d 14
    then "e"
    else "f"

-- `\\uXXXX` before `rest`
unicode_escape : ℕ → String → String
unicode_escape n rest =
    "\\"
    ∷ "u"
    ∷ hex_digit (n / 4096 % 16)
    ∷ hex_digit (n / 256 % 16)
    ∷ hex_digit (n / 16 % 16)
    ∷ hex_digit (n % 16)
    ∷ rest

-- `ESCAPE_DCT`: the letter behind the backslash of a short escape
short_escape : ℕ → Option Char
short_escape n =
    if eqb n 34
    then some "\""
    else if eqb n 92
    then some "\\"
    else if eqb n 10
    then some "n"
    else if eqb n 13
    then some "r"
    else if eqb n 9
    then some "t"
    else if eqb n 12
    then some "f"
    else if eqb n 8
    then some "b"
    else none

-- one character that has no short escape before `rest`
escape_long : Char → String → String
escape_long c rest =
    let n = code c in
    if leb 32 n && leb n 126
    then c ∷ rest
    else if ltb n 65536
    then unicode_escape n rest
    else unicode_escape (55296 + (n - 65536) / 1024)
        (unicode_escape (56320 + (n - 65536) % 1024) rest)

-- one character of a text before `rest`, as `ensure_ascii` writes it
escape_char : Char → String → String
escape_char c rest = elim (short_escape (code c)) [
  | some e ↦ "\\" ∷ e ∷ rest
  | none ↦ escape_long c rest
]

-- the characters of a text, its closing quote, and `rest`
quote_rest : String → String → String
quote_rest [] rest = "\"" ∷ rest
quote_rest (c ∷ s) rest = escape_char c (quote_rest s rest)

-- a text in quotes before `rest`
unfoldable pub quote : String → String → String
unfolding quote_rest escape_char short_escape escape_long unicode_escape hex_digit
quote s rest = "\"" ∷ quote_rest s rest

-- decimal digits; the number itself is fuel enough
decimal_fuel : ℕ → ℕ → String → String
unfolding hex_digit
decimal_fuel zero n rest = hex_digit n ∷ rest
decimal_fuel (suc f) n rest =
    let more = decimal_fuel f (n / 10) (hex_digit (n % 10) ∷ rest) in
    if ltb n 10 then hex_digit n ∷ rest else more

unfoldable pub decimal : ℕ → String → String
unfolding decimal_fuel
decimal n rest = decimal_fuel n n rest

-- `sort_keys=True`
insert_field : String → Json → Fields → Fields
insert_field k v end = field k v end
insert_field k v (field j w fs) =
    if str_ltb j k then field j w (insert_field k v fs) else field k v (field j w fs)

sort_fields : Fields → Fields
unfolding insert_field str_ltb
sort_fields end = end
sort_fields (field k v fs) = insert_field k v (sort_fields fs)

-- the values inside are sorted first, so that the printer recurs on the structure
mutual
  sort_keys : Json → Json
  sort_keys null = null
  sort_keys (bool b) = bool b
  sort_keys (num n) = num n
  sort_keys (str s) = str s
  sort_keys (arr xs) = arr (sort_items xs)
  sort_keys (obj fs) = obj (sort_fields (sort_values fs))

  sort_items : Items → Items
  sort_items nil = nil
  sort_items (cons x xs) = cons (sort_keys x) (sort_items xs)

  sort_values : Fields → Fields
  sort_values end = end
  sort_values (field k v fs) = field k (sort_keys v) (sort_values fs)

-- a fixed text before `rest`
prepend : String → String → String
prepend [] rest = rest
prepend (c ∷ s) rest = c ∷ prepend s rest

-- a value before `rest`
mutual
  unfolding prepend

  print : Json → String → String
  print null rest = prepend "null" rest
  print (bool true) rest = prepend "true" rest
  print (bool false) rest = prepend "false" rest
  print (num n) rest = decimal n rest
  print (str s) rest = quote s rest
  print (arr nil) rest = prepend "[]" rest
  print (arr (cons x xs)) rest = "[" ∷ print x (print_items xs ("]" ∷ rest))
  print (obj end) rest = prepend "{}" rest
  print (obj (field k v fs)) rest = "{" ∷ quote k (":" ∷ print v (print_fields fs ("}" ∷ rest)))

  print_items : Items → String → String
  print_items nil rest = rest
  print_items (cons x xs) rest = "," ∷ print x (print_items xs rest)

  print_fields : Fields → String → String
  print_fields end rest = rest
  print_fields (field k v fs) rest = "," ∷ quote k (":" ∷ print v (print_fields fs rest))

unfoldable pub dumps_sorted : Json → String
unfolding print print_items print_fields sort_keys sort_items sort_values sort_fields
dumps_sorted v = print (sort_keys v) ""
