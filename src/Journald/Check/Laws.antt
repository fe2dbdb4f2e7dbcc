-- ===== src/Journald/Check/Laws.antt =====
-- What an installation of the journal's bounds leaves behind.
use dragontools.Common.{
  Bool, true, false, ◌≡◌, refl, ◌⊎◌, inl, inr, Option, none, some, arith, ◌≢◌, Text, Option-cases,
  Bool-cases,
}
use dragontools.Journald.Effective.{effective, effective_with, render, Settings}
use dragontools.Journald.Check.{
  acceptable_dropin, Machine, World, Outcome, unchanged, changed, failed, verify, install,
  install_from, publish, publish_into, finish, write_dropin, make_parent, Node, Parent, is_none,
  Machine, limits_of, passes, missing, unsafe, directory, parent_metadata, project,
}

-- What a run from `w` that ends in a state has established: unless it fails, the verification
-- passes and no marker is left, and the state is that of the start if it reports no change. If it
-- fails, the drop-in is that of the start, or a marker asks for another try.
abbrev pub Established : Machine → World → Outcome × World → Type 0
Established m w (unchanged, w') = (verify m w' ≡ true) × (w'.marker ≡ none) × (w' ≡ w)
Established m w (changed, w') = (verify m w' ≡ true) × (w'.marker ≡ none)
Established m w (failed, w') = (w'.dropin ≡ w.dropin) ⊎ (w'.marker ≢ none)

verify-marker :
    (m : Machine) (w : World) (marker : Option Node)
    → verify m (record w { marker = marker }) ≡ verify m w
unfolding verify
verify-marker m w marker = refl

-- With a marker on disk the end of the run restarts and verifies, or fails and keeps the marker.
finish-Established :
    (m : Machine) (wrote : Bool) (w0 w : World) {node : Node}
    → w.marker ≡ some node
    → Established m w0 (finish m wrote w)
unfolding finish
finish-Established m wrote w0 w {node} e = ground (arith, verify-marker m w none)

publish_into-Established :
    (m : Machine) (content : Text) (p : Option Parent) (w : World)
    → Established m w (publish_into m content p w)
unfolding publish_into parent_metadata write_dropin
publish_into-Established m content none w = inl refl
publish_into-Established m content (some missing) w = inl refl
publish_into-Established m content (some unsafe) w = inl refl
publish_into-Established m content (some (directory true)) w = finish-Established m true w _ refl
publish_into-Established m content (some (directory false)) w = inl refl

publish-Established :
    (m : Machine) (text : Text) (a : Settings) (w : World) → Established m w (publish m text a w)
unfolding publish
publish-Established m text a w =
    let content = render a (limits_of m) in
    elim (Bool-cases (passes (effective_with (project text content) content) (limits_of m))) [
      | inl fits ↦ rw fits (publish_into-Established m content (make_parent w.parent) w)
      | inr conflict ↦ rw conflict (inl refl)
    ]

install_from-Established :
    (m : Machine) (text : Text) (a : Option Settings) (w : World)
    → Established m w (install_from m text a w)
unfolding install_from is_none
install_from-Established m text none w = inl refl
install_from-Established m text (some a) w = elim (Option-cases w.marker) [
  | inl e ↦ ground (arith, publish-Established m text a w)
  | inr (node, e) ↦ ground (arith, publish-Established m text a w, finish-Established m false w w e)
]

-- However the machine answers, a run that does not fail leaves a configuration that the
-- verification accepts, and no marker; a run that reports no change has made none; and a run that
-- fails has left the drop-in alone, or leaves a marker.
pub install-Established : (m : Machine) (w : World) → Established m w (install m w)
unfolding install
install-Established m w = install_from-Established m _ (effective (m.cat_config w.dropin)) w

install_verified :
    (m : Machine) (w : World) → verify m w ≡ true → w.marker ≡ none → install m w ≡ (unchanged, w)
unfolding install install_from verify is_none
install_verified m w v e = ground arith

not_failed :
    (m : Machine) (w : World) (r : Outcome × World)
    → Established m w r
    → r.0 ≢ failed
    → (verify m r.1 ≡ true) × (r.1.marker ≡ none)
not_failed m w (unchanged, w') d h = (d.0, d.1)
not_failed m w (changed, w') d h = d
not_failed m w (failed, w') d h = absurd (h refl)

-- After a run that did not fail, another run reports no change and makes none.
pub install_again :
    (m : Machine) (w : World)
    → (install m w).0 ≢ failed
    → let w' = (install m w).1 in install m w' ≡ (unchanged, w')
install_again m w h =
    let (v, e) = not_failed m w (install m w) (install-Established m w) h in
    install_verified m (install m w).1 v e

install_from_unmanaged :
    (m : Machine) (text : Text) (a : Option Settings) (w : World)
    → acceptable_dropin w.dropin ≡ false
    → (install_from m text a w).1 ≡ w
unfolding install_from is_none
install_from_unmanaged m text none w h = refl
install_from_unmanaged m text (some a) w h = ground arith

-- A drop-in that is no safe file or lacks the managed header is left alone, with the marker and
-- the directory, whatever else holds.
pub install_unmanaged :
    (m : Machine) (w : World) → acceptable_dropin w.dropin ≡ false → (install m w).1 ≡ w
unfolding install
install_unmanaged m w h = install_from_unmanaged m _ (effective (m.cat_config w.dropin)) w h
