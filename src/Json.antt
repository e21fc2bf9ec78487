-- ===== src/Json.antt =====
-- The JSON values that the program stores in TEXT columns and hashes (Python's `json`).
pub mod Print
use Prim.Native.String.{String}
use immutavault.Prelude.{
  ℕ, Bool, true, false, not, eqb, ◌==◌, if◌then◌else◌, Result, ok, err, type_error, Option, none,
  some,
}

mutual
  pub data Json : Type 0 where
    null : Json
    bool : Bool → Json
    num : ℕ → Json
    str : String → Json
    arr : Items → Json
    obj : Fields → Json

  pub data Items : Type 0 where
    nil : Items
    cons : Json → Items → Items

  pub data Fields : Type 0 where
    end : Fields
    field : String → Json → Fields → Fields

-- A TEXT column that holds JSON: a dumped value, or a text that `json.loads` refuses.
pub data JsonText : Type 0 where
  dumped : Json → JsonText
  garbled : JsonText

-- `json.loads(text or "{}")` with `except json.JSONDecodeError: {}`
unfoldable pub loads_or_empty : JsonText → Json
loads_or_empty (dumped v) = v
loads_or_empty garbled = obj end

-- `d[k] = v` on the fields of an object
unfoldable pub set_field : String → Json → Fields → Fields
set_field k v end = field k v end
set_field k v (field j w fs) = if j == k then field j v fs else field j w (set_field k v fs)

-- `d[k] = v`, which raises where `d` is not an object
unfoldable pub set_key : String → Json → Json → Result Json
unfolding set_field
set_key k v (obj fs) = ok (obj (set_field k v fs))
set_key k v other = err (type_error "value does not support item assignment")

-- `d.get(k)` on the fields of an object, `null` where the key is missing
unfoldable pub get_field : String → Fields → Json
get_field k end = null
get_field k (field j v fs) = if j == k then v else get_field k fs

-- `bool(v)`
abbrev pub is_truthy : Json → Bool
is_truthy null = false
is_truthy (bool b) = b
is_truthy (num n) = not (eqb n 0)
is_truthy (str s) = not (s == "")
is_truthy (arr nil) = false
is_truthy (arr (cons v vs)) = true
is_truthy (obj end) = false
is_truthy (obj (field k v fs)) = true

-- `v or {}`, where none is `None`
abbrev pub or_empty_object : Option Json → Json
or_empty_object none = obj end
or_empty_object (some v) = if is_truthy v then v else obj end

-- `str(v)`, where `repr` gives the text of a value that is no text
abbrev pub text_with : (Json → String) → Json → String
text_with repr (str s) = s
text_with repr v = repr v

-- `str(d.get(k) or default)`
abbrev pub text_or : (Json → String) → String → String → Fields → String
text_or repr k default fs =
    if is_truthy (get_field k fs) then text_with repr (get_field k fs) else default

-- `d.setdefault(k, v)`
unfoldable pub set_default : String → Json → Fields → Fields
set_default k v end = field k v end
set_default k v (field j w fs) = if j == k then field j w fs else field j w (set_default k v fs)
