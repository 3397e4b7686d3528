-- ===== src/Sim/Collectors.antt =====
-- Concrete collectors: their series as a function of the labels.
use cnpg_ha.Base.{Option, none, some, ◌+◌, refl}
use cnpg_ha.Api.{Float64}
use cnpg_ha.Metrics.{float_one}
use cnpg_ha.Metrics.Registry.{Counting, Registry, RegistryLaws, told}
use cnpg_ha.Controller.Status.Gauges.{Gauges}

abbrev counted_next : Option Float64 → Option Float64
counted_next none = some float_one
counted_next (some x) = some (x + 1)

abbrev sim_counting : Counting
sim_counting = record { counted = counted_next; observed = λ x old. some x }

abbrev pub sim_registry : Registry
sim_registry = record {
  Held = Gauges;
  read = λ f. f;
  serve = λ k f c xs. told sim_counting k c xs (f c xs);
  counting = sim_counting;
}

pub sim-RegistryLaws : RegistryLaws sim_registry
sim-RegistryLaws = record { read-serve = λ k h c xs. refl }
