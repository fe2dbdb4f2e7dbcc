-- ===== src/Ingestion/Peer/Laws.antt =====
-- Who passes `registered_peer` of src/monitoring/agents/ingestion.py.
use dragontools.Common.{
  ◌≡◌, refl, ◌⊎◌, inl, inr, Bool, true, false, not, ◌&&◌, Option, none, some, Text, codes, &&-true,
  drop, list_eq, nat_eq, if◌then◌else◌,
}
use dragontools.Common.Json.{Json, get, holds_text}
use dragontools.Common.Result.{ok, refused, or_refused, bind-ok, demand-ok}
use dragontools.Ingestion.Peer.{
  Headers, Station, header_field, is_subject, is_fingerprint, read_entry, is_leased, is_candidate,
  is_active, host_matches, entitled, registered_peer,
}

-- How the registration `r` belongs to a peer with this fingerprint: it is the active one of the value
-- in the registry, or the enrolled candidate, whose lease has not expired.
pub data IsEntitled (station : Station) (host fingerprint : Text) (value r : Json) : Type 0 where
  active :
      r ≡ value
      → holds_text fingerprint (get (codes "certificate_sha256") value) ≡ true
      → IsEntitled station host fingerprint value r
  candidate :
      get (codes "pending_registration") value ≡ some r
      → holds_text fingerprint (get (codes "pending_certificate_sha256") value) ≡ true
      → is_leased station (get (codes "pending_expires_at") value) ≡ true
      → IsEntitled station host fingerprint value r

-- A peer that asserts a host and a fingerprint, and the registration that belongs to it.
pub record IsPeer (station : Station) (headers : Headers) (r : Json) : Type 0 where
  pub subject : Text
  pub fingerprint : Text
  pub value : Json
  pub asserts_host : header_field headers (codes "Subject") ≡ ok subject
  pub asserts_certificate : header_field headers (codes "Fingerprint") ≡ ok fingerprint
  pub well_formed : (is_subject subject && is_fingerprint fingerprint) ≡ true
  pub registered : read_entry station (station.registry (drop 3 subject)) ≡ ok value
  pub belongs : IsEntitled station (drop 3 subject) fingerprint value r
  pub same_host : holds_text (drop 3 subject) (get (codes "host") r) ≡ true

-- The three ways through the tests of a registration.
entitled_cases :
    (named enrolled current : Bool) (p : Option Json) (value r : Json)
    → (if not named
        then refused
        else if enrolled
        then or_refused p
        else if current
        then ok value
        else refused)
      ≡ ok r
    → (named ≡ true) × (((enrolled ≡ true) × (p ≡ some r)) ⊎ ((current ≡ true) × (r ≡ value)))
entitled_cases false e c p value r h = cc h
entitled_cases true true c none value r h = cc h
entitled_cases true true c (some j) value r h = (refl, inl (refl, cc h))
entitled_cases true false true p value r h = (refl, inr (refl, cc h))
entitled_cases true false false p value r h = cc h

host_matches-holds :
    (host : Text) (p : Option Json) (r : Json)
    → host_matches host p ≡ true
    → p ≡ some r
    → holds_text host (get (codes "host") r) ≡ true
host_matches-holds host none r h e = cc e
host_matches-holds host (some j) r h e = cc h

module _ (station : Station) where
  entitled-ok :
      (host fingerprint : Text) (modern legacy : Bool) (value r : Json)
      → entitled station host fingerprint modern legacy value ≡ ok r
      → IsEntitled station host fingerprint value r
        × (holds_text host (get (codes "host") r) ≡ true)
  unfolding entitled is_candidate is_active
  entitled-ok host fingerprint modern legacy value r h =
      let (named, way) =
        entitled_cases (holds_text host (get (codes "host") value))
          (is_candidate station host fingerprint modern value)
          (is_active host fingerprint modern legacy value)
          (get (codes "pending_registration") value) value r h in
      elim way [
        | inl (c, p) ↦
            let (c2, same) = &&-true _ _ c in
            let (c1, leased) = &&-true _ _ c2 in
            let (mine, new) = &&-true _ _ c1 in
            (candidate p mine leased, host_matches-holds host _ r same p)
        | inr (c, p) ↦ (active p (&&-true _ _ c).0, cc (named, p))
      ]

  -- Who passes `registered_peer` asserts a well-formed host and certificate, and gets the registration of
  -- this host in the registry whose active certificate it is, or the candidate that is enrolled for it
  -- and has not expired; the registration names the same host.
  pub registered_peer-ok :
      (headers : Headers) (r : Json)
      → registered_peer station headers ≡ ok r
      → IsPeer station headers r
  unfolding registered_peer
  registered_peer-ok headers r h =
      let (subject, s, h1) = bind-ok _ _ r h in
      let (fingerprint, f, h2) = bind-ok _ _ r h1 in
      let (formed, h3) = demand-ok _ _ r h2 in
      let (uri, u, h4) = bind-ok _ _ r h3 in
      let (extra, x, h5) = bind-ok _ _ r h4 in
      let (value, v, h6) = bind-ok _ _ r h5 in
      let e = entitled-ok (drop 3 subject) fingerprint _ _ value r h6 in
      record {
        subject = subject;
        fingerprint = fingerprint;
        value = value;
        asserts_host = s;
        asserts_certificate = f;
        well_formed = formed;
        registered = v;
        belongs = e.0;
        same_host = e.1;
      }
