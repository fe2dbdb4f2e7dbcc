-- ===== src/Common/Json/Read.antt =====
-- Reading a JSON value, where another exception ends what does not have the wanted form.
use dragontools.Common.{◌≡◌, Bool, true, false, ◌&&◌, Option, none, some, List, [], ◌∷◌, Text}
use dragontools.Common.Json.{
  Json, null, boolean, integer, negative, real, string, array, object, items, equal,
}
use dragontools.Common.Result.{Result, ok, broken}

-- `value.get(key) == other`
abbrev pub holds : Json → Option Json → Bool
holds v none = equal null v
holds v (some j) = equal j v

abbrev pub is_object : Json → Bool
is_object (object fs) = true
is_object _ = false

abbrev pub all_objects : List Json → Bool
all_objects [] = true
all_objects (j ∷ js) = is_object j && all_objects js

abbrev pub list_of : Option Json → Result (List Json)
list_of (some (array js)) = ok (items js)
list_of _ = broken

abbrev pub text_of : Option Json → Result Text
text_of (some (string t)) = ok t
text_of _ = broken

abbrev pub present : {A : Type 0} → Option A → Result A
present none = broken
present (some a) = ok a

pub present-ok : {A : Type 0} (o : Option A) (a : A) → present o ≡ ok a → o ≡ some a
present-ok none a h = cc h
present-ok (some b) a h = cc h

pub text_of-ok : (o : Option Json) (t : Text) → text_of o ≡ ok t → o ≡ some (string t)
text_of-ok (some (string u)) t h = cc h
text_of-ok none t h = cc h
text_of-ok (some null) t h = cc h
text_of-ok (some (boolean b)) t h = cc h
text_of-ok (some (integer n)) t h = cc h
text_of-ok (some (negative n)) t h = cc h
text_of-ok (some (real u)) t h = cc h
text_of-ok (some (array u)) t h = cc h
text_of-ok (some (object u)) t h = cc h
