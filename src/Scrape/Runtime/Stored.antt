-- ===== src/Scrape/Runtime/Stored.antt =====
-- `query`, `sample_map` and `stored_states` of src/monitoring/scrape.py.
use dragontools.Common.{
  ◌-◌, ◌^◌, Bool, true, false, not, ◌&&◌, ◌||◌, Option, none, some, List, [], ◌∷◌, ◌++◌, Text,
  codes, length, ltb, leb, ◌==◌, nat_eq, list_eq, if◌then◌else◌,
}
use dragontools.Common.Json.Read.{present, list_of}
use dragontools.Common.Keys.{contains_key, find}
use dragontools.Common.Json.{
  Json, string, array, object, integer, negative, real, Fields, nil, cons, get, lookup, remove,
  holds_text, equal, quote, text_before,
}
use dragontools.Common.Result.{Result, ok, broken, ◌>>=◌, ◌>>◌, claim}
use dragontools.Scrape.Runtime.{
  Host, Number, Labels, label_fields, json_response, target_key, is_fresh,
}

pub data State : Type 0 where
  unknown healthy unhealthy : State

-- Whether a number is an `int` or a `float` that is finite; an `int` is, where it fits a `float`.
abbrev pub is_finite : Json → Bool
is_finite (integer n) = ltb n (2 ^ 1024 - 2 ^ 970)
is_finite (negative n) = ltb n (2 ^ 1024 - 2 ^ 970 - 1)
is_finite (real t) = not (t == codes "inf" || t == codes "-inf" || t == codes "nan")
is_finite _ = false

-- A text into texts that are sorted and distinct.
abbrev pub insert_text : Text → List Text → List Text
insert_text t [] = t ∷ []
insert_text t (u ∷ us) =
    if t == u then u ∷ us else if text_before t u then t ∷ u ∷ us else u ∷ insert_text t us

-- `sorted({labels["job"] for labels in expected.values()})`
abbrev pub sorted_jobs : List (Text × Labels) → List Text
sorted_jobs [] = []
sorted_jobs ((k, l) ∷ es) = insert_text l.job (sorted_jobs es)

-- The texts with `|` between them.
abbrev pub join_escaped : (Text → Text) → List Text → Text
join_escaped f [] = []
join_escaped f (t ∷ []) = f t
join_escaped f (t ∷ u ∷ us) = f t ++ (codes "|" ++ join_escaped f (u ∷ us))

module _ (host : Host) where
  -- `query(expression)`
  unfoldable pub query : Text → Result (List Json)
  query expression =
      json_response host (
        codes "/api/v1/query?"
        ++ host.urlencode (
            (codes "query", expression)
            ∷ (codes "nocache", codes "1")
            ∷ (codes "timeout", codes "4s")
            ∷ []))
      >>= λ part.
          claim (holds_text (codes "vector") (get (codes "resultType") part))
          >> (list_of (get (codes "result") part) >>= λ rows.
              claim (leb (length rows) 4096) >> ok rows)

  abbrev own_metric : Text → Option Json → Bool
  own_metric metric none = true
  own_metric metric (some j) = holds_text metric (some j)

  -- The labels of a row but `__name__`, which must be the metric if it is there.
  unfoldable pub metric_labels : Text → Option Json → Result Fields
  metric_labels metric (some (object fs)) =
      claim (own_metric metric (lookup (codes "__name__") fs)) >> ok (remove (codes "__name__") fs)
  metric_labels metric _ = broken

  -- What the row is a sample of: nothing that is expected, or the target of this name.
  abbrev pub sample_name : Fields → Text → Option Labels → Option Text
  sample_name labels name none = none
  sample_name labels name (some wanted) =
      if equal (object labels) (object (label_fields wanted)) then some name else none

  -- The value of a row: a pair of a finite number and of the text of one.
  unfoldable pub point_of : Option Json → Result Number
  point_of (some (array (cons a (cons (string t) nil)))) =
      claim (is_finite a) >> present (host.float t)
  point_of _ = broken

  -- The name of a row and its value; a row of a removed target is passed over.
  unfoldable pub value_of : List Text → Json → Option Text → Result (Option (Text × Number))
  value_of seen row none = ok none
  value_of seen row (some name) =
      claim (not (contains_key name seen))
      >> (point_of (get (codes "value") row) >>= λ value. ok (some (name, value)))

  unfoldable pub sample_of :
      Text → List (Text × Labels) → List Text → Json → Result (Option (Text × Number))
  sample_of metric expected seen row = metric_labels metric (get (codes "metric") row) >>= λ labels.
      present (target_key host labels) >>= λ name.
      value_of seen row (sample_name labels name (find name expected))

  abbrev pub add_sample : Option (Text × Number) → List (Text × Number) → List (Text × Number)
  add_sample none samples = samples
  add_sample (some s) samples = s ∷ samples

  abbrev pub add_name : Option (Text × Number) → List Text → List Text
  add_name none seen = seen
  add_name (some (name, value)) seen = name ∷ seen

  unfoldable pub samples_from :
      Text → List (Text × Labels) → List Text → List Json → Result (List (Text × Number))
  samples_from metric expected seen [] = ok []
  samples_from metric expected seen (row ∷ rows) = sample_of metric expected seen row >>= λ o.
      samples_from metric expected (add_name o seen) rows >>= λ samples. ok (add_sample o samples)

  -- `sample_map(rows, expected, metric)`
  unfoldable pub sample_map :
      List Json → List (Text × Labels) → Text → Result (List (Text × Number))
  sample_map rows expected metric = samples_from metric expected [] rows

  abbrev pub is_zero : Number → Bool
  is_zero v = v.size == 0

  abbrev pub is_one : Number → Bool
  is_one v = not v.is_negative && v.size == host.unit

  abbrev pub has_value : Option Number → Bool
  has_value none = true
  has_value (some v) = is_zero v || is_one v

  abbrev pub fresh_stamp : Option Number → Bool
  fresh_stamp none = false
  fresh_stamp (some t) = is_fresh host host.now_again t

  abbrev pub is_up : Option Number → Bool
  is_up none = false
  is_up (some v) = is_one v

  abbrev pub scraper_current : Option (Option Number × Option Number) → Bool
  scraper_current none = true
  scraper_current (some (u, s)) = is_up u && fresh_stamp s

  -- The state of a target by its value and the stamp of it, and by those of `up`, if these are read.
  unfoldable pub state_of :
      Option Number → Option Number → Option (Option Number × Option Number) → State
  state_of none stamp up = unknown
  state_of (some v) stamp up =
      if fresh_stamp stamp && scraper_current up
      then if is_one v then healthy else unhealthy
      else unknown

  -- The samples that were read: values, stamps, and with `check_up` those of `up`.
  pub record Samples : Type 0 where
    pub values : List (Text × Number)
    pub stamps : List (Text × Number)
    pub ups : Option (List (Text × Number) × List (Text × Number))

  abbrev up_of :
      Text
      → Option (List (Text × Number) × List (Text × Number))
      → Option (Option Number × Option Number)
  up_of name none = none
  up_of name (some (us, ss)) = some (find name us, find name ss)

  unfoldable pub states_from : Samples → List (Text × Labels) → Result (List (Text × State))
  states_from s [] = ok []
  states_from s ((name, l) ∷ es) =
      claim (has_value (find name s.values))
      >> (states_from s es >>= λ rest.
          ok ((name, state_of (find name s.values) (find name s.stamps) (up_of name s.ups)) ∷ rest))

  abbrev pub selector : Text → List (Text × Labels) → Text
  selector metric expected =
      metric
      ++ (codes "{job=~"
          ++ (quote (join_escaped host.re_escape (sorted_jobs expected)) ++ codes "}[90s]"))

  -- The answers to one metric: the last value and its time.
  unfoldable pub read_metric :
      Text → List (Text × Labels) → Result (List (Text × Number) × List (Text × Number))
  read_metric metric expected =
      (query (codes "last_over_time(" ++ (selector metric expected ++ codes ")")) >>= λ rows.
      sample_map rows expected metric)
      >>= λ values.
          (query (codes "timestamp(" ++ (selector metric expected ++ codes ")")) >>= λ rows.
          sample_map rows expected metric)
          >>= λ stamps. ok (values, stamps)

  unfoldable pub read_up :
      Bool → List (Text × Labels) → Result (Option (List (Text × Number) × List (Text × Number)))
  read_up false expected = ok none
  read_up true expected = read_metric (codes "up") expected >>= λ p. ok (some p)

  -- `stored_states(expected, check_up)`
  unfoldable pub stored_states : List (Text × Labels) → Bool → Result (List (Text × State))
  stored_states [] check_up = ok []
  stored_states (e ∷ es) check_up =
      read_metric (codes "probe_success") (e ∷ es) >>= λ (values, stamps).
      read_up check_up (e ∷ es) >>= λ ups.
      states_from (record { values = values; stamps = stamps; ups = ups }) (e ∷ es)
