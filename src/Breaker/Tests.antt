-- ===== src/Breaker/Tests.antt =====
-- The breaker's theorems at concrete inputs.
use agora_etl.Prelude.{◌-◌, ◌+◌, ◌<◌, ◌≤◌, ◌≡◌, refl, some, [], ◌∷◌, map, arith}
use agora_etl.Breaker.{
  open_circuit, half_open, CircuitBreakerConfig, Breaker, fresh, rejected, admitted, admit,
}
use agora_etl.Breaker.Runs.{
  admission, success, failure, IsValid, run, run-IsValid, admit_after_opening, half_open_admits,
}

abbrev small : CircuitBreakerConfig
small = record { failure_threshold = 2; timeout_seconds = 60; success_threshold = 2 }

abbrev tripped : Breaker
tripped = record {
  state = open_circuit;
  failure_count = 2;
  success_count = 0;
  last_failure_time = some 7;
}

run-IsValid_example :
    IsValid small (run small fresh (failure 5 ∷ failure 7 ∷ admission 70 ∷ success ∷ []))
run-IsValid_example =
    run-IsValid small (failure 5 ∷ failure 7 ∷ admission 70 ∷ success ∷ []) (omega arith)
      (omega arith)

small_stays_open :
    (30 < 7 + 60 → admit small tripped 30 ≡ rejected (7 + 60 - 30))
    × (7 + 60 ≤ 30 → admit small tripped 30 ≡ admitted (record tripped { state = half_open }))
small_stays_open = admit_after_opening small tripped 30 7 refl refl

probes_are_admitted :
    run small (record tripped { state = half_open }) (map admission (67 ∷ 68 ∷ []))
    ≡ record tripped { state = half_open }
probes_are_admitted =
    half_open_admits small (67 ∷ 68 ∷ []) (record tripped { state = half_open }) refl
