-- ===== src/Metrics/Tests.antt =====
-- The registry of internal/metrics/metrics.go after a few additions, and its exposition.
use go_speedtest.Prelude.{◌≡◌, refl, ◌≢◌, false, str_eq, str_eq_iff, List, [], ◌∷◌, String}
use go_speedtest.Prelude.Int.{ℤ, pos, int64, ◌+ℤ◌}
use go_speedtest.Metrics.{
  Registry, new_registry, bytes_served, bytes_received, active_streams, tests_started, add,
  at_series,
}
use go_speedtest.Metrics.Exposition.{
  expose, help, type_of, sample, all_lines, family_lines, help_text, collect, sort_families,
  sort_onto, at_family, family_of, insert,
}
use go_speedtest.Metrics.Exposition.Steady.{IsReordered, same, next, swap, then_also, expose_steady}
use go_speedtest.Metrics.Series.{value, add_all, total, add_all_lem}

abbrev traffic : List (String × ℤ)
traffic = (bytes_served, pos 5) ∷ (bytes_received, pos 9) ∷ (bytes_served, pos 7) ∷ []

add_all_lem_holds :
    let r' = add_all new_registry traffic in
    (value bytes_served r'.counters
      ≡ total bytes_served (value bytes_served new_registry.counters) traffic)
    × (r'.gauges ≡ new_registry.gauges)
add_all_lem_holds = add_all_lem new_registry traffic bytes_served

traffic_test : value bytes_served (add_all new_registry traffic).counters ≡ pos 12
unfolding new_registry value add_all add at_series int64 ◌+ℤ◌
traffic_test = refl

abbrev started_download : String
started_download = "gospeedtest_tests_started_total{type=\"download\"}"

abbrev started_upload : String
started_upload = "gospeedtest_tests_started_total{type=\"upload\"}"

abbrev registry : Registry
registry = record {
  counters = (started_upload, pos 1) ∷ (bytes_served, pos 5) ∷ (started_download, pos 2) ∷ [];
  gauges = (active_streams, pos 3) ∷ [];
}

-- The map of the counters, iterated over from another pair on.
abbrev rotated : Registry
rotated = record registry {
  counters = (bytes_served, pos 5) ∷ (started_download, pos 2) ∷ (started_upload, pos 1) ∷ [];
}

apart : (s t : String) → str_eq s t ≡ false → s ≢ t
apart s t h e = cc (h, (str_eq_iff s t).1 e)

counters-IsReordered : IsReordered registry.counters rotated.counters
counters-IsReordered =
    then_also (swap (apart started_upload bytes_served refl))
      (next (swap (apart started_upload started_download refl)))

expose_steady_example : expose registry ≡ expose rotated
expose_steady_example = expose_steady registry rotated counters-IsReordered same

exposed :
    expose registry
    ≡ help active_streams "Currently active payload streams."
      ∷ type_of active_streams "gauge"
      ∷ sample active_streams (pos 3)
      ∷ help bytes_served "Total payload bytes served to clients."
      ∷ type_of bytes_served "counter"
      ∷ sample bytes_served (pos 5)
      ∷ help tests_started "Payload requests started, by type."
      ∷ type_of tests_started "counter"
      ∷ sample started_download (pos 2)
      ∷ sample started_upload (pos 1)
      ∷ []
unfolding expose all_lines family_lines help_text collect sort_families sort_onto at_family
    family_of insert
exposed = refl
