-- ===== src/Apps/Tests.antt =====
-- Runs of `app_publish` of src/monitoring/apps/station_mutate.py.
use dragontools.Common.{
  Text, Option, List, Bool, true, ◌==◌, ◌&&◌, ◌||◌, nat_eq, ◌≡◌, refl, inl, false, none, some, [],
  ◌∷◌, starts_with, list_eq,
}
use dragontools.Apps.Namespace.{manifest, Node, Directory, World, readable}
use dragontools.Runs.{Keeps, pure, raise}
use dragontools.Apps.Inspect.{
  preflight, inspect, inspect_directory, directory_ok, document_ok, published_ok, staged_ok,
}
use dragontools.Apps.Publish.{
  publish, publish_over, update, complete, refresh, refresh_over, advance, mark_all, mark,
  mark_over, save_all, in_app, in_app_of, atomic, atomic_over, write_atomic, prefixes, ensure_root,
  ensure_root_over,
}
use dragontools.Apps.States.{settled}
use dragontools.Apps.Live.{Live}
use dragontools.Apps.Accept.{preflight-Recoverable, manifest_in}
use dragontools.Apps.Advance.{Current}
use dragontools.Apps.Draft.{IsSafe, registered}
use dragontools.Apps.Crash.{publish-IsSafe}
use dragontools.Apps.Outcomes.{publish-unchanged, publish-refused, publish-IsBlocked}
use dragontools.Apps.Samples.{
  first, second, version_documents, version_manifest, renderer, sized, host, refusing_host, station,
  staged_at, moving_directory, second_directory, generation, moving_station, moving_station-open,
  moving_station-older, second_station-open, second_settled, blocked_settled,
}

preflight-Recoverable_example :
    preflight renderer second (station moving_directory)
    ≡ some (some (version_manifest second (some first)))
unfolding manifest_in moving_station
preflight-Recoverable_example =
    preflight-Recoverable renderer sized second (version_documents second) refl
      (station moving_directory) moving_station

publish-IsSafe_example :
    Keeps
      (IsSafe renderer host second (version_documents second))
      (λ _. Live (Current renderer second (version_documents second)))
      (publish renderer host second (station moving_directory))
publish-IsSafe_example =
    publish-IsSafe renderer sized host refl second (version_documents second) refl
      (station moving_directory) refl moving_station-open (registered moving_station)

publish-unchanged_example :
    publish renderer host second (station (second_directory (λ _. none)))
    ≡ pure false (station (second_directory (λ _. none)))
publish-unchanged_example =
    publish-unchanged renderer sized host second (version_documents second) refl
      (station (second_directory (λ _. none)))
      (record {
        rooted = refl;
        markers = λ k. inl refl;
        directory = second_directory (λ _. none);
        present = refl;
        holds = (generation second, refl, second_settled);
      })
      second_station-open

publish-IsBlocked_example :
    publish renderer host second (station (second_directory (staged_at manifest (2 ∷ 2 ∷ []))))
    ≡ raise (station (second_directory (staged_at manifest (2 ∷ 2 ∷ []))))
unfolding starts_with
publish-IsBlocked_example =
    publish-IsBlocked renderer sized host second (version_documents second) refl
      (station (second_directory (staged_at manifest (2 ∷ 2 ∷ []))))
      (registered (record {
        rooted = refl;
        markers = λ k. inl refl;
        directory = second_directory (staged_at manifest (2 ∷ 2 ∷ []));
        present = refl;
        holds = settled (generation second) blocked_settled;
      }))
      (record {
        directory = second_directory (staged_at manifest (2 ∷ 2 ∷ []));
        present = refl;
        current = refl;
        staged = 2 ∷ 2 ∷ [];
        next = refl;
        differs = refl;
      })

publish-refused_example :
    publish renderer refusing_host second (station moving_directory)
    ≡ raise (station moving_directory)
publish-refused_example =
    publish-refused renderer sized refusing_host second (version_documents second) refl
      (station moving_directory) refl (registered moving_station) moving_station-older

abbrev content_is : Text → Option Node → Bool
content_is t none = false
content_is t (some n) = n.content == t

abbrev is_blocked : Option Directory → Bool
is_blocked none = false
is_blocked (some d) =
    content_is (2 ∷ 0 ∷ []) (d.file manifest) && content_is (2 ∷ 2 ∷ []) (d.next manifest)

abbrev some_blocked : List World → Bool
some_blocked [] = false
some_blocked (w ∷ ws) = is_blocked w.app || some_blocked ws

-- A retry of the update that was cut off passes through a state in which it is blocked.
retry_passes_blocked :
    some_blocked (publish renderer host second (station moving_directory)).trace ≡ true
unfolding publish preflight inspect inspect_directory directory_ok document_ok published_ok
    staged_ok readable publish_over update complete refresh refresh_over advance mark_all mark
    mark_over save_all in_app in_app_of atomic atomic_over write_atomic prefixes ensure_root
    ensure_root_over starts_with
retry_passes_blocked = refl
