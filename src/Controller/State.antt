-- ===== src/Controller/State.antt =====
-- The reconciler and the state that one reconcile works on, with the small methods that change it.
use cnpg_ha.Base.{
  ℕ, ◌+◌, String, Bool, ◌&&◌, Option, List, [], ◌∷◌, ◌++◌, lookup, delete, none, some, ◌==◌,
  if◌then◌else◌,
}
use cnpg_ha.Base.Message.{Text, lit, sprintf, str, end, arg, wrapf}
use cnpg_ha.Base.Exec.{Result, ok, err, Exec, modify}
use cnpg_ha.Api.{
  HaCluster, HaClusterStatus, Condition, SecretKeySelector, Time, failover_mode_automatic,
}
use cnpg_ha.Metrics.{Call}
use cnpg_ha.Platform.{Platform, Ref}
use cnpg_ha.Postgres.{Config, ProbeResult}
use cnpg_ha.Remote.{Cache, get_or_create}

pub data EventType : Type 0 where
  normal warning : EventType

pub record Event : Type 0 where
  pub event_type : EventType
  pub reason : String
  pub message : Text

abbrev pub condition_available : String
condition_available = "Available"

abbrev pub condition_degraded : String
condition_degraded = "Degraded"

abbrev pub condition_failover_in_progress : String
condition_failover_in_progress = "FailoverInProgress"

abbrev pub condition_split_brain : String
condition_split_brain = "SplitBrain"

abbrev pub annotation_promote : String
annotation_promote = "ha.cnpg.io/promote"

abbrev pub same_ref : Ref → Ref → Bool
same_ref a b = a.namespace == b.namespace && a.name == b.name

-- failCount: the consecutive failures by HACluster; a missing key reads as 0.
abbrev pub FailCount : Type 0
FailCount = Ref → ℕ

-- failCount[key]++
unfoldable pub bumped : Ref → FailCount → FailCount
bumped key count = λ k. if same_ref key k then count key + 1 else count k

-- delete(failCount, key)
unfoldable pub forgotten : Ref → FailCount → FailCount
forgotten key count = λ k. if same_ref key k then 0 else count k

-- HAClusterReconciler: its own client, whether it has a recorder, and its prober.
pub record Reconciler (p : Platform) : Type 0 where
  pub client : p.Client
  pub has_recorder : Bool
  pub prober : Option (Config → p.World → Result ProbeResult)

-- The world, the reconciler's fields that change, the HACluster in memory, and what was sent to
-- the event recorder and the collectors, the last at the end.
pub record State (p : Platform) : Type 0 where
  pub world : p.World
  pub cache : Cache p
  pub fail_count : FailCount
  pub ha : HaCluster
  pub events : List Event
  pub metrics : List Call

abbrev pub ha_key : HaCluster → Ref
ha_key ha = record { namespace = ha.namespace; name = ha.name }

module _ (p : Platform) (r : Reconciler p) where
  open p use {World, Client}

  -- An action on the world, and one on the cache of clients.
  abbrev pub on_world : {A : Type 0} → Exec World A → Exec (State p) A
  on_world m s = let (x, w) = m s.world in (x, record s { world = w })

  unfoldable pub remote_client : String → SecretKeySelector → Exec (State p) Client
  remote_client namespace secret_ref s =
      let (x, c) = get_or_create p r.client namespace secret_ref s.world s.cache in
      (x, record s { cache = c })

  unfoldable pub event : EventType → String → Text → Exec (State p) (Unit {0})
  event event_type reason message = modify (λ s.
      if r.has_recorder
      then record s {
        events =
            s.events ++ record { event_type = event_type; reason = reason; message = message } ∷ [];
      }
      else s)

  unfoldable pub publish : List Call → Exec (State p) (Unit {0})
  publish calls = modify (λ s. record s { metrics = s.metrics ++ calls })

  -- r.bumpFailCount(key), which returns the new count, and r.resetFailCount(key).
  unfoldable pub bump_fail_count : Ref → Exec (State p) ℕ
  unfolding bumped
  bump_fail_count key s =
      let count = bumped key s.fail_count in (ok (count key), record s { fail_count = count })

  unfoldable pub reset_fail_count : Ref → Exec (State p) (Unit {0})
  unfolding forgotten
  reset_fail_count key = modify (λ s. record s { fail_count = forgotten key s.fail_count })

  abbrev pub with_status : HaClusterStatus → State p → State p
  with_status st s = record s { ha = record s.ha { status = st } }

  -- meta.SetStatusCondition(&ha.Status.Conditions, cond)
  unfoldable pub set_status_condition : Condition → Exec (State p) (Unit {0})
  set_status_condition c = modify (λ s.
      with_status (record s.ha.status { conditions = p.set_condition c s.ha.status.conditions }) s)

  unfoldable pub failover_condition : Bool → String → HaCluster → Time → Condition
  failover_condition in_progress target ha now =
      let is_automatic = ha.spec.failover.mode == failover_mode_automatic in
      record {
        kind = condition_failover_in_progress;
        status = if in_progress then "True" else "False";
        reason =
            if in_progress
            then (if is_automatic then "AutomaticPromotion" else "ManualPromotion")
            else "Idle";
        message =
            if in_progress
            then (if is_automatic
                then sprintf "promoting site %q (automatic)" (arg (str target) end)
                else sprintf "promoting site %q (manual)" (arg (str target) end))
            else lit "no failover in progress";
        last_transition_time = now;
        observed_generation = ha.generation;
      }

  unfoldable pub set_failover_in_progress : Bool → String → Exec (State p) (Unit {0})
  unfolding failover_condition set_status_condition
  set_failover_in_progress in_progress target s =
      set_status_condition (failover_condition in_progress target s.ha (p.now s.world)) s

  -- r.Patch with the merge patch that removes the annotation. It leaves in `ha` what the server
  -- returned, whose annotation is then deleted.
  unfoldable pub patched : Result HaCluster → Exec (State p) (Unit {0})
  patched (err e) s = (
    err (wrapf "patch HACluster %s/%s: %w" (arg (str s.ha.namespace) (arg (str s.ha.name) end)) e),
    s,
  )
  patched (ok ha) s = (
    ok tt,
    record s { ha = record ha { annotations = delete annotation_promote ha.annotations } },
  )

  unfoldable pub clear_present : Option String → Exec (State p) (Unit {0})
  unfolding patched
  clear_present none s = (ok tt, s)
  clear_present (some target) s =
      let (x, w) = p.remove_annotation annotation_promote s.ha s.world in
      patched x (record s { world = w })

  unfoldable pub clear_promote_annotation : Exec (State p) (Unit {0})
  unfolding clear_present
  clear_promote_annotation s = clear_present (lookup annotation_promote s.ha.annotations) s
