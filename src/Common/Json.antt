-- ===== src/Common/Json.antt =====
-- The values that Python's `json.loads` gives, and the calls that the programs make on them. An
-- object keeps its fields in order. A number with a fraction or an exponent is kept as its `repr`.
pub mod Laws
pub mod Read
use Prim.Native.Nat.{ℕ, zero, suc, ◌+◌, ◌-◌, ◌*◌, ◌/◌, ◌%◌}
use Prim.Native.String.{String}
use mathlib.Core.Bool.{Bool, true, false, not, ◌&&◌, ◌||◌}
use mathlib.Core.Option.{Option, none, some}
use mathlib.Core.List.{List, [], ◌∷◌, ◌++◌}
use dragontools.Common.Tests.{ltb, leb, nat_beq, if◌then◌else◌, ◌==◌, list_eq, nat_eq}
use dragontools.Common.Strings.{Text, codes, decimal}

mutual
  pub data Json : Type 0 where
    null : Json
    boolean : Bool → Json
    integer : ℕ → Json
    negative : ℕ → Json  -- `-(n + 1)`
    real : Text → Json
    string : Text → Json
    array : Items → Json
    object : Fields → Json

  pub data Items : Type 0 where
    nil : Items
    cons : Json → Items → Items

  pub data Fields : Type 0 where
    end : Fields
    field : Text → Json → Fields → Fields

-- A list or an object as a list.
abbrev pub items : Items → List Json
items nil = []
items (cons j js) = j ∷ items js

abbrev pub from_list : List Json → Items
from_list [] = nil
from_list (j ∷ js) = cons j (from_list js)

abbrev pub keys : Fields → List Text
keys end = []
keys (field k v fs) = k ∷ keys fs

-- `fields.get(key)`
unfoldable pub lookup : Text → Fields → Option Json
lookup k end = none
lookup k (field j v fs) = let rest = lookup k fs in if j == k then some v else rest

-- `fields[key] = value`
unfoldable pub assign : Text → Json → Fields → Fields
assign k v end = field k v end
assign k v (field j w fs) =
    let rest = assign k v fs in if j == k then field j v fs else field j w rest

-- `fields.pop(key, None)`: the fields of any other key.
unfoldable pub remove : Text → Fields → Fields
remove k end = end
remove k (field j w fs) = let rest = remove k fs in if j == k then rest else field j w rest

-- `value.get(key)` of a value that may be no object.
abbrev pub get : Text → Json → Option Json
get k (object fs) = lookup k fs
get k _ = none

abbrev pub count : Fields → ℕ
count end = 0
count (field k v fs) = suc (count fs)

abbrev pub bool_beq : Bool → Bool → Bool
bool_beq true b = b
bool_beq false b = not b

-- `value == text`
abbrev pub is_text : Text → Json → Bool
is_text t (string s) = s == t
is_text t _ = false

-- `value == n`; Python has `True == 1` and `1.0 == 1`.
abbrev pub is_number : ℕ → Json → Bool
is_number n (integer m) = m == n
is_number n (boolean true) = n == 1
is_number n (boolean false) = n == 0
is_number n (real t) = t == (decimal n ++ codes ".0")
is_number n _ = false

-- `value == other`: an object equals another with the same fields in any order. A `float` equals the
-- integer whose decimal form its `repr` shows; from 1e16 on, `repr` shows an exponent, and here no such
-- `float` equals an integer, nor does nan differ from itself.
unfoldable mutual
  pub equal : Json → Json → Bool
  equal null null = true
  equal (string s) j = is_text s j
  equal (integer n) j = is_number n j
  equal (boolean b) (boolean c) = bool_beq b c
  equal (boolean b) (integer n) = is_number n (boolean b)
  equal (boolean b) (real t) = t == (if b then codes "1.0" else codes "0.0")
  equal (negative n) (negative m) = n == m
  equal (negative n) (real t) = t == (codes "-" ++ (decimal (suc n) ++ codes ".0"))
  equal (real t) (real u) = t == u
  equal (real t) (integer n) = is_number n (real t)
  equal (real t) (negative n) = t == (codes "-" ++ (decimal (suc n) ++ codes ".0"))
  equal (real t) (boolean b) = t == (if b then codes "1.0" else codes "0.0")
  equal (array xs) (array ys) = equal_items xs ys
  equal (object fs) (object gs) = count fs == count gs && equal_fields fs gs
  equal _ _ = false

  pub equal_items : Items → Items → Bool
  equal_items nil nil = true
  equal_items (cons x xs) (cons y ys) = equal x y && equal_items xs ys
  equal_items _ _ = false

  -- Each field of the first is one of the second.
  pub equal_fields : Fields → Fields → Bool
  equal_fields end gs = true
  equal_fields (field k v fs) gs =
      elim (lookup k gs) [ none ↦ false | some w ↦ equal v w ] && equal_fields fs gs

-- `value.get(key) == text`
abbrev pub holds_text : Text → Option Json → Bool
holds_text t none = false
holds_text t (some j) = is_text t j

-- `bool(value)`
abbrev pub truthy : Json → Bool
truthy null = false
truthy (boolean b) = b
truthy (integer n) = not (n == 0)
truthy (negative n) = true
truthy (real t) = not (t == codes "0.0" || t == codes "-0.0")
truthy (string t) = not (t == [])
truthy (array nil) = false
truthy (array (cons _ _)) = true
truthy (object end) = false
truthy (object (field _ _ _)) = true

-- `not value.get(key)`
abbrev pub falsy : Option Json → Bool
falsy none = true
falsy (some j) = not (truthy j)

hex_digit : ℕ → ℕ
hex_digit n = if ltb n 10 then 48 + n else 87 + n

-- `\uXXXX`
unicode_escape : ℕ → Text
unicode_escape n =
    codes "\\u"
    ++ (hex_digit (n / 4096)
        ∷ hex_digit ((n / 256) % 16)
        ∷ hex_digit ((n / 16) % 16)
        ∷ hex_digit (n % 16)
        ∷ [])

-- One character of a text, as `json.dumps` with `ensure_ascii` writes it.
escape : ℕ → Text
escape c =
    if c == 34
    then codes "\\\""
    else if c == 92
    then codes "\\\\"
    else if c == 10
    then codes "\\n"
    else if c == 13
    then codes "\\r"
    else if c == 9
    then codes "\\t"
    else if c == 8
    then codes "\\b"
    else if c == 12
    then codes "\\f"
    else if leb 32 c && leb c 126
    then c ∷ []
    else if ltb c 65536
    then unicode_escape c
    else unicode_escape (55296 + (c - 65536) / 1024) ++ unicode_escape (56320 + (c - 65536) % 1024)

escape_all : Text → Text
escape_all [] = []
escape_all (c ∷ s) = escape c ++ escape_all s

-- `json.dumps(text)`
unfoldable pub quote : Text → Text
unfolding escape_all escape unicode_escape hex_digit
quote s = 34 ∷ (escape_all s ++ (34 ∷ []))

-- A `float` as `json.dumps` writes it: its `repr`, but for the three values that no JSON has.
abbrev pub real_text : Text → Text
real_text t =
    if t == codes "nan"
    then codes "NaN"
    else if t == codes "inf"
    then codes "Infinity"
    else if t == codes "-inf"
    then codes "-Infinity"
    else t

-- `json.dumps(value, separators=(',', ':'), ensure_ascii=True)`
unfoldable mutual
  pub dumps : Json → Text
  dumps null = codes "null"
  dumps (boolean true) = codes "true"
  dumps (boolean false) = codes "false"
  dumps (integer n) = decimal n
  dumps (negative n) = codes "-" ++ decimal (suc n)
  dumps (real t) = real_text t
  dumps (string t) = quote t
  dumps (array nil) = codes "[]"
  dumps (array (cons j js)) = codes "[" ++ (dumps j ++ dumps_items js)
  dumps (object end) = codes "{}"
  dumps (object (field k v fs)) =
      codes "{" ++ (quote k ++ (codes ":" ++ (dumps v ++ dumps_fields fs)))

  pub dumps_items : Items → Text
  dumps_items nil = codes "]"
  dumps_items (cons j js) = codes "," ++ (dumps j ++ dumps_items js)

  pub dumps_fields : Fields → Text
  dumps_fields end = codes "}"
  dumps_fields (field k v fs) =
      codes "," ++ (quote k ++ (codes ":" ++ (dumps v ++ dumps_fields fs)))

-- `a < b` on texts.
unfoldable pub text_before : Text → Text → Bool
text_before a [] = false
text_before [] (d ∷ b) = true
text_before (c ∷ a) (d ∷ b) = ltb c d || (nat_beq c d && text_before a b)

-- A field into fields that are sorted by their keys.
insert_field : Text → Json → Fields → Fields
insert_field k v end = field k v end
insert_field k v (field j w fs) =
    let rest = insert_field k v fs in
    if text_before k j then field k v (field j w fs) else field j w rest

-- `sort_keys=True`
unfoldable mutual
  unfolding insert_field

  pub sorted_keys : Json → Json
  sorted_keys (array js) = array (sorted_items js)
  sorted_keys (object fs) = object (sorted_fields fs)
  sorted_keys j = j

  pub sorted_items : Items → Items
  sorted_items nil = nil
  sorted_items (cons j js) = cons (sorted_keys j) (sorted_items js)

  pub sorted_fields : Fields → Fields
  sorted_fields end = end
  sorted_fields (field k v fs) = insert_field k (sorted_keys v) (sorted_fields fs)
