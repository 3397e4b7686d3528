-- ===== src/Health.antt =====
-- internal/health/health.go: the health of one site, read from its CNPG Cluster.
use cnpg_ha.Base.{ℕ, String, ◌≡◌, ap, Bool, true, false, not, Option, none, [], ◌∷◌, if◌then◌else◌}
use cnpg_ha.Base.Int.{ℤ, pos, ltb_ℤ}
use cnpg_ha.Base.Message.{Text, lit, sprintf, str, int, error, end, arg}
use cnpg_ha.Base.Exec.{Result, ok, err}
use cnpg_ha.Api.{Float64}
use cnpg_ha.Platform.{Platform, Ref, cnpg_cluster, or_zero}

pub record SiteHealth : Type 0 where
  pub reachable : Bool
  pub primary : Bool
  pub ready : Bool
  pub phase : String
  pub reason : Text
  pub timeline_id : ℤ
  pub lsn_known : Bool
  pub lsn : String
  pub lsn_value : ℕ
  pub lag_seconds : Option Float64

-- The zero value of the struct.
abbrev pub no_health : SiteHealth
no_health = record {
  reachable = false;
  primary = false;
  ready = false;
  phase = "";
  reason = lit "";
  timeline_id = pos 0;
  lsn_known = false;
  lsn = "";
  lsn_value = 0;
  lag_seconds = none;
}

module _ (p : Platform) where
  open p use {World, Client, Object}

  unfoldable pub parse_cluster : Object → SiteHealth
  parse_cluster u =
      let replica_enabled = or_zero false (p.nested_bool u ("spec" ∷ "replica" ∷ "enabled" ∷ [])) in
      let phase = or_zero "" (p.nested_string u ("status" ∷ "phase" ∷ [])) in
      let ready_instances = or_zero (pos 0) (p.nested_int64 u ("status" ∷ "readyInstances" ∷ [])) in
      let ready = ltb_ℤ (pos 0) ready_instances in
      record no_health {
        primary = not replica_enabled;
        ready = ready;
        phase = phase;
        reason =
            if ready
            then lit ""
            else sprintf "not ready (phase=%q, readyInstances=%d)"
                (arg (str phase) (arg (int ready_instances) end));
        timeline_id = or_zero (pos 0) (p.nested_int64 u ("status" ∷ "timelineID" ∷ []));
      }

  pub health_of : Ref → Result Object → SiteHealth
  health_of ref (err e) = record no_health {
    reason =
        sprintf "get cnpg cluster %s/%s: %v"
          (arg (str ref.namespace) (arg (str ref.name) (arg (error e) end)));
  }
  health_of ref (ok u) = record (parse_cluster u) { reachable = true }

  unfoldable pub probe : Client → Ref → World → SiteHealth
  unfolding health_of
  probe cli ref w = health_of ref (p.get cnpg_cluster cli ref w)

  -- Where the cluster reads alike, its probe is the same.
  pub probe_kept :
      (cli : Client) (ref : Ref) (v w : World)
      → p.get cnpg_cluster cli ref v ≡ p.get cnpg_cluster cli ref w
      → probe cli ref v ≡ probe cli ref w
  unfolding probe
  probe_kept cli ref v w e = ap (health_of ref) e
