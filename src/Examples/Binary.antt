-- ===== src/Examples/Binary.antt =====
-- The manager binary, on a runtime that notes the calls in a list of texts.
use cnpg_ha.Base.{String, none, some, List, [], ◌∷◌, ◌++◌, ◌≡◌, refl, ◌==◌, if◌then◌else◌}
use cnpg_ha.Base.Exec.{ok, Exec}
use cnpg_ha.Manager.{
  CommandLine, TlsConfig, Runtime, options_of, manager_options, set_up_and_start, run_manager, main,
}
use cnpg_ha.Manager.Startup.{configured, Begins, servers_hardened, main_starts}

abbrev noted : String → String → Exec (List String) (Unit {0})
noted step mgr calls = (ok tt, calls ++ step ∷ [])

abbrev calm : Runtime
calm = record {
  Host = List String;
  Manager = String;
  new_manager = λ o calls. (ok o.metrics.bind_address, calls ++ "new" ∷ []);
  register = λ cs calls. calls ++ "register" ∷ [];
  set_up_controller = noted;
  add_healthz_check = noted;
  add_readyz_check = noted;
  start = noted "start";
}

-- The command line sets the address of the metrics server only.
abbrev line : CommandLine
line = record {
  text = λ name. if name == "metrics-bind-address" then some ":8443" else none;
  switch = λ name. none;
}

calls_test :
    main calm line []
    ≡ (ok tt, "new" ∷ "register" ∷ "hacluster-controller" ∷ "healthz" ∷ "readyz" ∷ "start" ∷ [])
unfolding main run_manager set_up_and_start
calls_test = refl

main_starts_example : Begins calm line [] (main calm line [])
main_starts_example = main_starts calm line []

abbrev both : TlsConfig
both = record { next_protos = "h2" ∷ "http/1.1" ∷ [] }

servers_hardened_example :
    let options = manager_options (options_of line) in
    ((configured options.webhook.tls_opts both).next_protos ≡ "http/1.1" ∷ [])
    × ((configured options.metrics.tls_opts both).next_protos ≡ "http/1.1" ∷ [])
    × (options.metrics.has_filter ≡ options.metrics.secure_serving)
unfolding options_of
servers_hardened_example = servers_hardened line both refl
