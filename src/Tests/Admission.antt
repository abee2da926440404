-- ===== src/Tests/Admission.antt =====
-- internal/controller/validation.go and internal/dra/resourceslice.go on concrete objects.
use tenstorrent_dra_framewor.Base.{
  ◌≤◌, ◌≡◌, refl, String, Bool, none, All, length, string_eq, nat_eq, ◌==◌, not,
}
use tenstorrent_dra_framewor.Base.Int.{add_int64}
use tenstorrent_dra_framewor.Controller.Validation.{validate_workload}
use tenstorrent_dra_framewor.Controller.Validation.Admitted.{
  IsAdmitted, validate_workload-IsAdmitted,
}
use tenstorrent_dra_framewor.Dra.Slices.{
  driver_resources_at, offered_devices, max_devices_per_slice,
}
use tenstorrent_dra_framewor.Dra.Slices.Published.{all_of, driver_resources_at-all_of}
use tenstorrent_dra_framewor.Tests.Placement.{job}
use tenstorrent_dra_framewor.Tests.Lifecycle.{env, seen}

abbrev is_named : String → Bool
is_named name = not (name == "")

job_accepted : validate_workload is_named job ≡ none
unfolding validate_workload string_eq nat_eq add_int64
job_accepted = refl

validate_workload-IsAdmitted_example : IsAdmitted is_named job
validate_workload-IsAdmitted_example = validate_workload-IsAdmitted is_named job job_accepted

driver_resources_at-all_of_example :
    (all_of (driver_resources_at env "n" seen 120 60) ≡ offered_devices env "n" seen 120 60)
    × All (λ slice. length slice ≤ max_devices_per_slice) (driver_resources_at env "n" seen 120 60)
driver_resources_at-all_of_example = driver_resources_at-all_of env "n" seen 120 60
