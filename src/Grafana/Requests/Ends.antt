-- ===== src/Grafana/Requests/Ends.antt =====
-- No reading of an answer in src/monitoring/grafana_credentials.py is an endless loop.
use dragontools.Common.{
  ℕ, Bool, true, false, Option, none, some, List, [], ◌∷◌, Text, codes, ◌==◌, nat_eq, list_eq,
  if◌then◌else◌,
}
use dragontools.Common.Json.{
  Json, null, boolean, integer, negative, real, string, array, object, get, holds_text,
}
use dragontools.Common.Result.{Result, ok, refused, broken}
use dragontools.Grafana.Outcome.{Outcome, done, failure, raised, endless, ◌>!◌, demanded, loaded}
use dragontools.Grafana.Query.{
  object_of, list_of, hashable_names, frame_ok, one_frame, logs_query_result,
}
use dragontools.Grafana.Program.Laws.{IsEnd}
use dragontools.Grafana.Requests.{
  Calls, Route, get_user, put_user, get_settings, get_health, post_query, is_busy, Reply,
  unreachable, received, read_reply, refused_reply, local_admin, logs_reply, plugin_ok, present,
}

pub >!-IsEnd :
    {A B : Type 0} (o : Outcome A) (f : A → Outcome B)
    → IsEnd o
    → ((a : A) → IsEnd (f a))
    → IsEnd (o >! f)
unfolding ◌>!◌
>!-IsEnd (done a) f h hf = hf a
>!-IsEnd (failure c) f h hf = tt
>!-IsEnd raised f h hf = tt
>!-IsEnd endless f h hf = elim h [ ]

pub demanded-IsEnd : (b : Bool) (c : ℕ) → IsEnd (demanded b c)
unfolding demanded
demanded-IsEnd true c = tt
demanded-IsEnd false c = tt

pub if-IsEnd :
    {A : Type 0} (b : Bool) (o p : Outcome A) → IsEnd o → IsEnd p → IsEnd (if b then o else p)
if-IsEnd true o p ho hp = ho
if-IsEnd false o p ho hp = hp

pub loaded-IsEnd : {A : Type 0} (c : ℕ) (r : Result A) → IsEnd (loaded c r)
unfolding loaded
loaded-IsEnd c (ok a) = tt
loaded-IsEnd c refused = tt
loaded-IsEnd c broken = tt

pub present-IsEnd : (o : Option Json) → IsEnd (present o)
present-IsEnd none = tt
present-IsEnd (some j) = tt

object_of-IsEnd : (o : Option Json) → IsEnd (object_of o)
object_of-IsEnd none = tt
object_of-IsEnd (some null) = tt
object_of-IsEnd (some (boolean b)) = tt
object_of-IsEnd (some (integer n)) = tt
object_of-IsEnd (some (negative n)) = tt
object_of-IsEnd (some (real t)) = tt
object_of-IsEnd (some (string t)) = tt
object_of-IsEnd (some (array js)) = tt
object_of-IsEnd (some (object fs)) = tt

list_of-IsEnd : (o : Option Json) → IsEnd (list_of o)
list_of-IsEnd none = tt
list_of-IsEnd (some null) = tt
list_of-IsEnd (some (boolean b)) = tt
list_of-IsEnd (some (integer n)) = tt
list_of-IsEnd (some (negative n)) = tt
list_of-IsEnd (some (real t)) = tt
list_of-IsEnd (some (string t)) = tt
list_of-IsEnd (some (array js)) = tt
list_of-IsEnd (some (object fs)) = tt

hashable_names-IsEnd : (js : List Json) → IsEnd (hashable_names js)
unfolding hashable_names
hashable_names-IsEnd [] = tt
hashable_names-IsEnd (j ∷ js) = if-IsEnd _ raised (hashable_names js) tt (hashable_names-IsEnd js)

one_frame-IsEnd : (js : List Json) → IsEnd (one_frame js)
unfolding one_frame
one_frame-IsEnd [] = tt
one_frame-IsEnd (j ∷ []) = object_of-IsEnd (some j)
one_frame-IsEnd (j ∷ k ∷ js) = tt

frame_ok-IsEnd : (frame : Json) → IsEnd (frame_ok frame)
unfolding frame_ok
frame_ok-IsEnd frame = >!-IsEnd _ _ (object_of-IsEnd _) λ _. >!-IsEnd _ _ (object_of-IsEnd _) λ _.
    >!-IsEnd _ _ (demanded-IsEnd _ 86) λ _. >!-IsEnd _ _ (list_of-IsEnd _) λ fields.
      >!-IsEnd _ _ (list_of-IsEnd _) λ values. >!-IsEnd _ _ (demanded-IsEnd _ 86) λ _.
        >!-IsEnd _ _ (demanded-IsEnd _ 86) λ _.
          >!-IsEnd _ _ (hashable_names-IsEnd fields)
            λ _. >!-IsEnd _ _ (demanded-IsEnd _ 86) λ _. demanded-IsEnd _ 86

logs_query_result-IsEnd : (value : Json) → IsEnd (logs_query_result value)
unfolding logs_query_result
logs_query_result-IsEnd value = >!-IsEnd _ _ (demanded-IsEnd _ 86) λ _.
    >!-IsEnd _ _ (object_of-IsEnd _) λ _. >!-IsEnd _ _ (demanded-IsEnd _ 86) λ _.
      >!-IsEnd _ _ (object_of-IsEnd _) λ _.
        >!-IsEnd _ _ (if-IsEnd _ (failure 84) (done tt) tt tt) λ _.
          >!-IsEnd _ _ (demanded-IsEnd _ 86) λ _.
            >!-IsEnd _ _ (list_of-IsEnd _)
              λ frames. >!-IsEnd _ _ (one_frame-IsEnd frames) λ frame. frame_ok-IsEnd frame

refused_reply-IsEnd : (r : Route) (value : Json) → IsEnd (refused_reply r value)
unfolding refused_reply
refused_reply-IsEnd get_user value = tt
refused_reply-IsEnd put_user value = tt
refused_reply-IsEnd get_settings value = tt
refused_reply-IsEnd get_health value =
    if-IsEnd {A = Unit {0}} (holds_text (codes "ERROR") (get (codes "status") value)) (failure 84)
      (done tt) tt tt
refused_reply-IsEnd post_query value = logs_query_result-IsEnd value

pub read_reply-IsEnd :
    (loads : Text → Result Json) (r : Route) (reply : Reply) → IsEnd (read_reply loads r reply)
unfolding read_reply
read_reply-IsEnd loads r unreachable = tt
read_reply-IsEnd loads r (received status body) = >!-IsEnd _ _ (demanded-IsEnd _ _) λ _.
    if-IsEnd (status == 401) (done none) _ tt (
      if-IsEnd (is_busy status) (failure 84) _ tt (
        >!-IsEnd _ _ (loaded-IsEnd _ (loads body)) λ value. >!-IsEnd _ _ (demanded-IsEnd _ _) λ _.
          >!-IsEnd _ _
            (if-IsEnd (status == 400) (refused_reply r value) (done tt)
              (refused_reply-IsEnd r value) tt)
            λ _. >!-IsEnd _ _ (demanded-IsEnd _ _) λ _. tt))

pub local_admin-IsEnd :
    {Machine : Type 0} (calls : Calls Machine) (o : Option Json) → IsEnd (local_admin calls o)
unfolding local_admin
local_admin-IsEnd calls none = tt
local_admin-IsEnd calls (some value) =
    >!-IsEnd _ _ (demanded-IsEnd _ 81)
      λ _. >!-IsEnd _ _ (demanded-IsEnd _ 81) λ _. >!-IsEnd _ _ (demanded-IsEnd _ 81) λ _. tt

pub logs_reply-IsEnd :
    {Machine : Type 0} (calls : Calls Machine) (query : Bool) (o : Option Json)
    → IsEnd (logs_reply calls query o)
unfolding logs_reply
logs_reply-IsEnd calls query o = >!-IsEnd _ _ (present-IsEnd o) λ value.
    if-IsEnd query (logs_query_result value) _ (logs_query_result-IsEnd value)
      (>!-IsEnd _ _ (if-IsEnd _ (failure 84) (done tt) tt tt) λ _. demanded-IsEnd _ 86)

pub plugin_ok-IsEnd :
    {Machine : Type 0} (calls : Calls Machine) (plugin : Json) → IsEnd (plugin_ok calls plugin)
unfolding plugin_ok
plugin_ok-IsEnd calls plugin =
    >!-IsEnd _ _ (demanded-IsEnd _ 88)
      λ _. >!-IsEnd _ _ (demanded-IsEnd _ 88) λ _. demanded-IsEnd _ 88
