-- ===== src/Controller/Failover.antt =====
-- siteClientAndRef and runPromotion.
pub mod Steps
pub mod Retry
pub mod Fenced
pub mod Outcome
pub mod Places
use cnpg_ha.Base.{ℕ, String, Option, none, some, ◌==◌, if◌then◌else◌}
use cnpg_ha.Base.Message.{errorf, wrapf, str, end, arg, is_not_found}
use cnpg_ha.Base.Exec.{Result, ok, err, Exec, fail, gets, wrap, ◌>>=◌, ◌>>◌}
use cnpg_ha.Api.{ReplicaSite, ClusterRef}
use cnpg_ha.Platform.{Platform, Ref}
use cnpg_ha.Promotion.{role_local, role_remote, fence, promote, flip_cilium_service}
use cnpg_ha.Controller.Observation.{find_replica}
use cnpg_ha.Controller.State.{Reconciler, State, on_world, remote_client}

abbrev pub ref_of : ClusterRef → Ref
ref_of c = record { namespace = c.namespace; name = c.name }

-- An error that is no NotFound is wrapped and returned, the others are logged and dropped.
abbrev pub tolerated : String → Result (Unit {0}) → Result (Unit {0})
tolerated f (ok x) = ok tt
tolerated f (err e) = if is_not_found e then ok tt else err (wrapf f end e)

abbrev pub unless_not_found : {S : Type 0} → String → Exec S (Unit {0}) → Exec S (Unit {0})
unless_not_found f m s = let (x, s') = m s in (tolerated f x, s')

module _ (p : Platform) where
  open p use {Client}

  -- The four steps, once both clients are there.
  unfoldable pub promotion_steps : Client → Ref → Client → Ref → Exec p.World (Unit {0})
  promotion_steps old_cli old_ref new_cli new_ref = do
    unless_not_found "fence old primary: %w" (fence p old_cli old_ref)
    unless_not_found "flip old primary service to remote: %w"
        (flip_cilium_service p old_cli old_ref role_remote)
    wrap "promote target: %w" end (promote p new_cli new_ref)
    wrap "flip target service to local: %w" end (flip_cilium_service p new_cli new_ref role_local)

module _ (p : Platform) (r : Reconciler p) where
  open p use {Client}

  abbrev pub Place : Type 0
  Place = Option (Client × Ref)

  -- A site whose client cannot be built is none.
  abbrev pub placed : ReplicaSite → Result Client → Place
  placed rep (err e) = none
  placed rep (ok cli) = some (cli, ref_of rep.cluster_ref)

  unfoldable pub replica_place : Option (ReplicaSite × ℕ) → Exec (State p) Place
  replica_place none s = (ok none, s)
  replica_place (some (rep, i)) s =
      let (x, s') = remote_client p r s.ha.namespace rep.kubeconfig_secret_ref s in
      (ok (placed rep x), s')

  -- The loop of siteClientAndRef finds the replica that findReplica finds.
  unfoldable pub site_client_and_ref : String → Exec (State p) Place
  unfolding replica_place
  site_client_and_ref site_name s =
      if site_name == s.ha.spec.primary.name
      then (ok (some (r.client, ref_of s.ha.spec.primary.cluster_ref)), s)
      else replica_place (find_replica s.ha site_name) s

  unfoldable pub run_with : String → ReplicaSite → Place → Exec (State p) (Unit {0})
  run_with old_primary_name target none =
      fail (errorf "resolve old primary site %q" (arg (str old_primary_name) end))
  run_with old_primary_name target (some (old_cli, old_ref)) = do
    ha ← gets (λ s. s.ha)
    new_cli ←
        wrap "load remote client for %q: %w" (arg (str target.name) end)
          (remote_client p r ha.namespace target.kubeconfig_secret_ref)
    on_world p r (promotion_steps p old_cli old_ref new_cli (ref_of target.cluster_ref))

  unfoldable pub run_promotion : String → ReplicaSite → Exec (State p) (Unit {0})
  unfolding run_with site_client_and_ref
  run_promotion old_primary_name target =
      if old_primary_name == ""
      then fail (errorf "old primary site is empty" end)
      else if old_primary_name == target.name
      then fail (
          errorf "old primary site %q and target site are identical"
            (arg (str old_primary_name) end))
      else do place ← site_client_and_ref old_primary_name; run_with old_primary_name target place
