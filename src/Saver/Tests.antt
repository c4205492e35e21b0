-- ===== src/Saver/Tests.antt =====
-- The theorems about the saver at a short run.
use cache_x.Base.{◌≡◌, refl, true}
use cache_x.Saver.{
  PeriodicSaver, create, request_stop, wake, finish_save, saving, ended, asked, woken, saved, Steps,
  here, next,
}
use cache_x.Saver.Stopping.{begun, Steps-begun, IsTallied, Steps-IsTallied}

-- The saver is stopped in the middle of a save, and that save ends.
abbrev stopped : PeriodicSaver
stopped = request_stop (wake create)

abbrev done : PeriodicSaver
done = finish_save true stopped

stopped-stopping : stopped.stopping ≡ true
unfolding request_stop
stopped-stopping = refl

stopped-saving : stopped.phase ≡ saving
unfolding request_stop wake
stopped-saving = refl

Steps-begun_example :
    (begun done ≡ begun stopped) × ((u : PeriodicSaver) × Steps done u × (u.phase ≡ ended))
Steps-begun_example =
    Steps-begun stopped done stopped-stopping (next here (saved true stopped-saving))

stopped-Steps : Steps create stopped
stopped-Steps = next (next here (woken refl)) asked

Steps-IsTallied_example : IsTallied done
Steps-IsTallied_example = Steps-IsTallied done (next stopped-Steps (saved true stopped-saving))
