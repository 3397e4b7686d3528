-- ===== src/Manager/Startup.antt =====
-- What the manager is built with, and when it starts.
use cnpg_ha.Base.{
  subst, String, Bool, true, Option, none, some, length, text-cases, eq_iff, false, List, [], ◌∷◌,
  ◌≡◌, refl, ◌⊎◌, inl, inr,
}
use cnpg_ha.Base.Message.{Err}
use cnpg_ha.Base.Exec.{Result, ok, err, Exec, proceed, ◌>>◌}
use mathlib.Core.List.{Memᴰ}
use cnpg_ha.Metrics.{
  Collector, registered, current_primary_site, site_reachable, site_ready, replica_lag_seconds,
  replica_lag_bytes, site_current_lsn_bytes, site_lsn_info, split_brain, failover_total,
  failover_duration_seconds,
}
use cnpg_ha.Manager.{
  CommandLine, or_text, or_switch, cert_files, CertFiles, ManagerOptions, options_of, TlsConfig,
  disable_http2, tls_opts, manager_options, Runtime, set_up_and_start, run_manager, main,
}

-- A TLS configuration after the options of a server, in their order.
abbrev pub configured : List (TlsConfig → TlsConfig) → TlsConfig → TlsConfig
configured [] c = c
configured (f ∷ fs) c = configured fs (f c)

-- Where HTTP/2 is not enabled by flag, both servers of the manager negotiate HTTP/1.1 only, whatever
-- their TLS configuration was. In any case the metrics server asks for authentication just where it
-- serves securely.
pub servers_hardened :
    (line : CommandLine) (c : TlsConfig)
    → (options_of line).enable_http2 ≡ false
    → let options = manager_options (options_of line) in
      ((configured options.webhook.tls_opts c).next_protos ≡ "http/1.1" ∷ [])
      × ((configured options.metrics.tls_opts c).next_protos ≡ "http/1.1" ∷ [])
      × (options.metrics.has_filter ≡ options.metrics.secure_serving)
unfolding manager_options options_of tls_opts disable_http2
servers_hardened line c h = rw h (refl, refl, refl)

-- The value is that of the flag, or the default where the flag is not given.
abbrev pub IsFlag : {A : Type 0} → Option A → A → A → Type 0
IsFlag given default v = ((given ≡ none) × (v ≡ default)) ⊎ (given ≡ some v)

-- A server has a certificate just where the flag with its path is given and not empty, and then the
-- one in that directory under the names of the flags.
abbrev pub IsCertificate : CommandLine → String → String → String → CertFiles → Type 0
IsCertificate line path name key c =
    IsFlag (line.text path) "" c.cert_dir
    × (((c.cert_dir ≡ "") × (c.cert_name ≡ "") × (c.key_name ≡ ""))
        ⊎ (IsFlag (line.text name) "tls.crt" c.cert_name
            × IsFlag (line.text key) "tls.key" c.key_name))

-- The options of the manager, flag by flag.
pub record IsGiven (line : CommandLine) (o : ManagerOptions) : Type 0 where
  pub metrics_address : IsFlag (line.text "metrics-bind-address") "0" o.metrics.bind_address
  pub metrics_secure : IsFlag (line.switch "metrics-secure") true o.metrics.secure_serving
  pub metrics_filter : o.metrics.has_filter ≡ o.metrics.secure_serving
  pub probe_address :
      IsFlag (line.text "health-probe-bind-address") ":8081" o.health_probe_bind_address
  pub election : IsFlag (line.switch "leader-elect") false o.leader_election
  pub metrics_certificate :
      IsCertificate line "metrics-cert-path" "metrics-cert-name" "metrics-cert-key"
        o.metrics.certificate
  pub webhook_certificate :
      IsCertificate line "webhook-cert-path" "webhook-cert-name" "webhook-cert-key"
        o.webhook.certificate

text-IsFlag : (o : Option String) (d : String) → IsFlag o d (or_text d o)
text-IsFlag none d = inl (refl, refl)
text-IsFlag (some v) d = inr refl

switch-IsFlag : (o : Option Bool) (d : Bool) → IsFlag o d (or_switch d o)
switch-IsFlag none d = inl (refl, refl)
switch-IsFlag (some v) d = inr refl

certificate_lem :
    (line : CommandLine) (path name key : String)
    → IsCertificate line path name key (
        cert_files
          (or_text "" (line.text path))
          (or_text "tls.crt" (line.text name))
          (or_text "tls.key" (line.text key)))
certificate_lem line path name key =
    let given = text-IsFlag (line.text path) "" in
    elim (text-cases (or_text "" (line.text path)) "") [
      | inl e ↦
          rw ((eq_iff _ _).1 e) (subst (IsFlag (line.text path) "") e given, inl (refl, refl, refl))
      | inr n ↦ rw n (
        given,
        inr (text-IsFlag (line.text name) "tls.crt", text-IsFlag (line.text key) "tls.key"),
      )
    ]

options-IsGiven : (line : CommandLine) → IsGiven line (manager_options (options_of line))
unfolding manager_options options_of
options-IsGiven line = record {
  metrics_address = text-IsFlag (line.text "metrics-bind-address") "0";
  metrics_secure = switch-IsFlag (line.switch "metrics-secure") true;
  metrics_filter = refl;
  probe_address = text-IsFlag (line.text "health-probe-bind-address") ":8081";
  election = switch-IsFlag (line.switch "leader-elect") false;
  metrics_certificate =
      certificate_lem line "metrics-cert-path" "metrics-cert-name" "metrics-cert-key";
  webhook_certificate =
      certificate_lem line "webhook-cert-path" "webhook-cert-name" "webhook-cert-key";
}

registered_complete : (c : Collector) → Memᴰ c registered
unfolding registered
registered_complete current_primary_site = Memᴰ.head refl
registered_complete site_reachable = Memᴰ.tail (Memᴰ.head refl)
registered_complete site_ready = Memᴰ.tail (Memᴰ.tail (Memᴰ.head refl))
registered_complete replica_lag_seconds = Memᴰ.tail (Memᴰ.tail (Memᴰ.tail (Memᴰ.head refl)))
registered_complete replica_lag_bytes =
    Memᴰ.tail (Memᴰ.tail (Memᴰ.tail (Memᴰ.tail (Memᴰ.head refl))))
registered_complete site_current_lsn_bytes =
    Memᴰ.tail (Memᴰ.tail (Memᴰ.tail (Memᴰ.tail (Memᴰ.tail (Memᴰ.head refl)))))
registered_complete site_lsn_info =
    Memᴰ.tail (Memᴰ.tail (Memᴰ.tail (Memᴰ.tail (Memᴰ.tail (Memᴰ.tail (Memᴰ.head refl))))))
registered_complete split_brain =
    Memᴰ.tail
      (Memᴰ.tail (Memᴰ.tail (Memᴰ.tail (Memᴰ.tail (Memᴰ.tail (Memᴰ.tail (Memᴰ.head refl)))))))
registered_complete failover_total = Memᴰ.tail (
    Memᴰ.tail
      (Memᴰ.tail (Memᴰ.tail (Memᴰ.tail (Memᴰ.tail (Memᴰ.tail (Memᴰ.tail (Memᴰ.head refl))))))))
registered_complete failover_duration_seconds = Memᴰ.tail (
    Memᴰ.tail (
      Memᴰ.tail
        (Memᴰ.tail (Memᴰ.tail (Memᴰ.tail (Memᴰ.tail (Memᴰ.tail (Memᴰ.tail (Memᴰ.head refl)))))))))

registered_once : length registered ≡ 10
unfolding registered
registered_once = refl

module _ (rt : Runtime) where
  open rt use {Host, Manager}

  abbrev Run : Type 0
  Run = Result (Unit {0}) × Host

  -- A step with this result, in a run that ends as `x`: it failed, and its error and what it left of
  -- the host are the end of the run, or it succeeded, and `P` is of what follows.
  abbrev pub After : {A : Type 0} → Result A × Host → (A → Host → Run → Type 0) → Run → Type 0
  After {A} step P x =
      ((e : Err) × (step ≡ (err e, x.1)) × (x.0 ≡ err e))
      ⊎ ((a : A) × (left : Host) × (step ≡ (ok a, left)) × P a left x)

  after :
      {A : Type 0} (P : A → Host → Run → Type 0) (step : Result A × Host)
      (f : A → Exec Host (Unit {0}))
      → ((a : A) (left : Host) → P a left (f a left))
      → After step P (proceed step.0 f step.1)
  after P (ok a, left) f g = inr (a, left, refl, g a left)
  after P (err e, left) f g = inl (e, refl, refl)

  -- The stages of the run, from the last one on.
  abbrev pub Starts : Manager → Unit {0} → Host → Run → Type 0
  Starts mgr _ ready x = x ≡ rt.start mgr ready

  abbrev pub ReadyStage : Manager → Unit {0} → Host → Run → Type 0
  ReadyStage mgr _ live = After (rt.add_readyz_check "readyz" mgr live) (Starts mgr)

  abbrev pub LiveStage : Manager → Unit {0} → Host → Run → Type 0
  LiveStage mgr _ controlled =
      After (rt.add_healthz_check "healthz" mgr controlled) (ReadyStage mgr)

  abbrev pub ControllerStage : List Collector → Manager → Host → Run → Type 0
  ControllerStage collectors mgr built =
      After (rt.set_up_controller "hacluster-controller" mgr (rt.register collectors built))
        (LiveStage mgr)

  -- What main starts with: options that the command line gives, and all collectors.
  pub record Begins (line : CommandLine) (h : Host) (x : Run) : Type 0 where
    pub options : ManagerOptions
    pub collectors : List Collector
    pub given : IsGiven line options
    pub complete : (c : Collector) → Memᴰ c collectors
    pub once : length collectors ≡ 10
    pub runs : After (rt.new_manager options h) (ControllerStage collectors) x

  -- Main builds the manager with the addresses, the protection of metrics, the leader election and
  -- the certificates of the command line, each with its default where the flag is not given. It
  -- registers every collector once, sets up the controller, and adds the two checks. The first of
  -- these steps that fails ends the run with its error, and where all succeed the manager is
  -- started, and its end is that of the run.
  pub main_starts : (line : CommandLine) (h : Host) → Begins line h (main rt line h)
  unfolding main run_manager set_up_and_start
  main_starts line h = record {
    options = manager_options (options_of line);
    collectors = registered;
    given = options-IsGiven line;
    complete = registered_complete;
    once = registered_once;
    runs =
        after (ControllerStage registered) (rt.new_manager (manager_options (options_of line)) h)
          (set_up_and_start rt)
          λ mgr built.
            after (LiveStage mgr)
              (rt.set_up_controller "hacluster-controller" mgr (rt.register registered built))
              (λ _.
                rt.add_healthz_check "healthz" mgr
                >> (rt.add_readyz_check "readyz" mgr >> rt.start mgr))
              λ _ controlled.
                after (ReadyStage mgr) (rt.add_healthz_check "healthz" mgr controlled)
                  (λ _. rt.add_readyz_check "readyz" mgr >> rt.start mgr)
                  λ _ live.
                    after (Starts mgr) (rt.add_readyz_check "readyz" mgr live) (λ _. rt.start mgr)
                      λ _ ready. refl;
  }
