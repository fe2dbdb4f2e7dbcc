-- ===== src/Ingestion/Logs/Laws.antt =====
-- What `log_body` of src/monitoring/agents/ingestion.py passes on.
use dragontools.Common.{
  ◌≡◌, refl, sym, ap, subst, ◌∙◌, true, not, none, List, [], ◌∷◌, Text, codes, Pairwise, ◌&&◌,
  length, leb, ◌*◌, ◌==◌, nat_eq, list_eq, byte_lines,
}
use dragontools.Common.Json.{
  Json, null, boolean, integer, negative, real, array, string, object, Fields, lookup, get,
}
use dragontools.Common.Json.Laws.{lookup-assign, lookup-remove, lookup-remove_other}
use dragontools.Common.Result.{Result, ok, bind-ok, demand-ok, ok-injective}
use dragontools.Ingestion.Logs.{
  batch_limit, body_limit, attributed, host_of, entry, entries, joined, log_body,
}
use dragontools.Ingestion.Logs.Attribution.{IsAttributed, attributed-ok, item-ok, IsAttributed-host}

-- The line that is passed on for a line of the batch.
abbrev pub IsEntry : (Text → Result Json) → Json → Text → Fields → Type 0
IsEntry loads registration line result =
    (value : Fields) × (loads line ≡ ok (object value))
    × IsAttributed registration value result
    × (lookup (codes "host") result ≡ get (codes "host") registration)
    × (lookup (codes "_stream") result ≡ none)

module _ (loads : Text → Result Json) (registration : Json) where
  entry-ok :
      (line : Text) (value : Json) (result : Fields)
      → loads line ≡ ok value
      → entry registration value ≡ ok result
      → IsEntry loads registration line result
  unfolding entry host_of
  entry-ok line (object value) result l h =
      let (mid, a, h1) = bind-ok (attributed registration value) (host_of registration) result h in
      let (host, g, h2) = bind-ok _ _ result h1 in
      let e = ok-injective h2 in
      (
        value,
        l,
        subst (IsAttributed registration value) e (
            IsAttributed-host host registration value mid (attributed-ok registration value mid a)),
        ap (lookup (codes "host")) (sym e)
            ∙ lookup-remove_other (codes "host") (codes "_stream") _ refl
            ∙ lookup-assign (codes "host") host mid
            ∙ sym (item-ok _ host g),
        ap (lookup (codes "_stream")) (sym e) ∙ lookup-remove (codes "_stream") _,
      )
  entry-ok line null result l h = cc h
  entry-ok line (boolean b) result l h = cc h
  entry-ok line (integer n) result l h = cc h
  entry-ok line (negative n) result l h = cc h
  entry-ok line (real t) result l h = cc h
  entry-ok line (string t) result l h = cc h
  entry-ok line (array js) result l h = cc h

  entries-ok :
      (lines : List Text) (results : List Fields)
      → entries loads registration lines ≡ ok results
      → Pairwise (IsEntry loads registration) lines results
  unfolding entries
  entries-ok [] results h = subst (Pairwise (IsEntry loads registration) []) (ok-injective h) tt
  entries-ok (line ∷ lines) results h =
      let (value, l, h1) = bind-ok _ _ results h in
      let (first, f, h2) = bind-ok _ _ results h1 in
      let (more, m, h3) = bind-ok _ _ results h2 in
      subst (Pairwise (IsEntry loads registration) (line ∷ lines)) (ok-injective h3)
        (entry-ok line value first l f, entries-ok lines more m)

  -- A batch that `log_body` passes on has from one to ten thousand lines, and gives one line for each,
  -- in order, within twice the limit of a body: the host is the registration's, no `_stream` is left,
  -- and the application, environment and service are those of the host, of the registered service that
  -- logs under the line's unit, or, where the names are the line's own, its service is registered.
  pub log_body-ok :
      (body text : Text)
      → log_body loads body registration ≡ ok text
      → (results : List Fields) × (text ≡ joined results)
        × Pairwise (IsEntry loads registration) (byte_lines body) results
        × ((not (length (byte_lines body) == 0) && leb (length (byte_lines body)) batch_limit)
            ≡ true)
        × (leb (length text) (2 * body_limit) ≡ true)
  unfolding log_body
  log_body-ok body text h =
      let (some_lines, h1) = demand-ok _ _ text h in
      let (results, r, h2) = bind-ok _ _ text h1 in
      let (short, h3) = demand-ok _ _ text h2 in
      let e = ok-injective h3 in
      (
        results,
        sym e,
        entries-ok (byte_lines body) results r,
        some_lines,
        subst (λ t. leb (length t) (2 * body_limit) ≡ true) e short,
      )
