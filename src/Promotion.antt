-- ===== src/Promotion.antt =====
-- internal/promotion/promotion.go: the steps of a promotion. Each is an action on the
-- world. The proofs stand in the modules below.
pub mod Outcome
pub mod Stored
pub mod Annotations
pub mod Fencing
pub mod Writes
pub mod Service
pub mod Role
pub mod Externals
pub mod Repointing
pub mod Following
pub mod Standing
use Prim.Native.String.{◌++◌}
use cnpg_ha.Base.{
  ℕ, suc, String, Bool, true, false, not, ◌&&◌, Option, none, some, List, [], ◌∷◌, text_or_empty,
  value_at, insert, nat_eq, ◌==◌, if◌then◌else◌,
}
use cnpg_ha.Base.Message.{Args, errorf, str, nat, end, arg}
use cnpg_ha.Base.Exec.{Result, ok, err, Exec, pure, fail, reads, from_result, wrap, ◌>>=◌, ◌>>◌}
use cnpg_ha.Value
use cnpg_ha.Value.{Value, Items, nil, cons, Fields, as_object, as_string, is_str}
use cnpg_ha.Platform.{Platform, Ref, Kind, cnpg_cluster, service, or_zero, or_error}

abbrev pub annotation_fenced : String
annotation_fenced = "cnpg.io/fencedInstances"

abbrev pub fenced_all_instances : String
fenced_all_instances = "[\"*\"]"

abbrev pub annotation_cilium_global : String
annotation_cilium_global = "service.cilium.io/global"

abbrev pub annotation_cilium_affinity : String
annotation_cilium_affinity = "service.cilium.io/affinity"

pub data ServiceRole : Type 0 where
  role_local role_remote : ServiceRole

unfoldable pub affinity_value : ServiceRole → String
affinity_value role_remote = "remote"
affinity_value role_local = "local"

abbrev pub replica_enabled_path : List String
replica_enabled_path = "spec" ∷ "replica" ∷ "enabled" ∷ []

abbrev pub replica_source_path : List String
replica_source_path = "spec" ∷ "replica" ∷ "source" ∷ []

abbrev pub external_clusters_path : List String
external_clusters_path = "spec" ∷ "externalClusters" ∷ []

abbrev pub ref_args : Ref → Args
ref_args ref = arg (str ref.namespace) (arg (str ref.name) end)

-- `e.(map[string]any)`, and its name, "" when it is no string.
unfoldable pub is_named : String → Value → Bool
is_named source (Value.object m) = text_or_empty (as_string (Value.lookup "name" m)) == source
is_named source _ = false

-- The loop of externalClusterIndex, from index i on.
unfoldable pub index_from : String → Items → ℕ → Result ℕ
index_from source nil i =
    err (errorf "spec.replica.source %q has no matching externalCluster" (arg (str source) end))
index_from source (cons e es) i =
    let rest = index_from source es (suc i) in if is_named source e then ok i else rest

unfoldable pub external_cluster_index : Items → String → Result ℕ
external_cluster_index externals source =
    if source == ""
    then (if nat_eq (Value.length externals) 1
        then ok 0
        else err (
            errorf "spec.replica.source unset and %d externalClusters (ambiguous)"
              (arg (nat (Value.length externals)) end)))
    else index_from source externals 0

abbrev pub or_empty : Option Fields → Fields
or_empty none = Fields.end
or_empty (some conn) = conn

-- `conn, _ := ext["connectionParameters"].(map[string]any)`, with an empty map for nil.
unfoldable pub connection_parameters : Fields → Fields
connection_parameters ext = or_empty (as_object (Value.lookup "connectionParameters" ext))

-- The external cluster with its host replaced.
unfoldable pub with_host : String → Fields → Fields
unfolding connection_parameters
with_host source_host ext =
    Value.insert "connectionParameters"
      (Value.object (Value.insert "host" (Value.str source_host) (connection_parameters ext))) ext

-- The name of the read-write Service of a CNPG Cluster.
abbrev pub rw_service : Ref → Ref
rw_service ref = record { namespace = ref.namespace; name = ref.name ++ "-rw" }

module _ (p : Platform) where
  open p use {World, Client, Object}

  abbrev pub fetch : Kind → Client → Ref → Exec World Object
  fetch k cli ref = reads (p.get k cli ref)

  -- cli.Update, of which the callers look at the error only.
  abbrev pub store : Kind → Client → Object → Exec World (Unit {0})
  store k cli o = do p.update k cli o; pure tt

  unfoldable pub fence : Client → Ref → Exec World (Unit {0})
  fence cli ref = do
    u ← wrap "get cnpg cluster %s/%s: %w" (ref_args ref) (fetch cnpg_cluster cli ref)
    let ann = p.annotations u
    if value_at annotation_fenced ann == fenced_all_instances
        then pure tt
        else wrap "fence cnpg cluster %s/%s: %w" (ref_args ref) (
            store cnpg_cluster cli
              (p.set_annotations (insert annotation_fenced fenced_all_instances ann) u))

  -- An absent spec.replica.enabled reads as false, and both mean a primary.
  unfoldable pub promote : Client → Ref → Exec World (Unit {0})
  promote cli ref = do
    u ← wrap "get cnpg cluster %s/%s: %w" (ref_args ref) (fetch cnpg_cluster cli ref)
    enabled ←
        wrap "read spec.replica.enabled %s/%s: %w" (ref_args ref)
          (from_result (or_error false (p.nested_bool u replica_enabled_path)))
    if not enabled then pure tt else do
      u' ←
          wrap "set spec.replica.enabled %s/%s: %w" (ref_args ref)
            (from_result (p.set_nested_bool false replica_enabled_path u))
      wrap "promote cnpg cluster %s/%s: %w" (ref_args ref) (store cnpg_cluster cli u')

  -- The end of Reconfigure: write the external clusters and the replica flag, and update.
  unfoldable pub repoint : Client → Ref → Items → Object → Exec World (Unit {0})
  repoint cli ref externals u = do
    u1 ←
        wrap "set spec.externalClusters %s/%s: %w" (ref_args ref)
          (from_result (p.set_nested_slice externals external_clusters_path u))
    u2 ←
        wrap "set spec.replica.enabled %s/%s: %w" (ref_args ref)
          (from_result (p.set_nested_bool true replica_enabled_path u1))
    wrap "reconfigure cnpg cluster %s/%s: %w" (ref_args ref) (store cnpg_cluster cli u2)

  -- Reconfigure from the type assertion on externals[idx] on.
  unfoldable pub reconfigure_at :
      Client → Ref → String → Items → ℕ → Option Fields → Object → Exec World (Unit {0})
  unfolding repoint
  reconfigure_at cli ref source_host externals idx none u = fail (
      errorf "reconfigure cnpg cluster %s/%s: externalClusters[%d] is not an object"
        (arg (str ref.namespace) (arg (str ref.name) (arg (nat idx) end))))
  reconfigure_at cli ref source_host externals idx (some ext) u =
      if or_zero false (p.nested_bool u replica_enabled_path)
        && is_str source_host (Value.lookup "host" (connection_parameters ext))
      then pure tt
      else repoint cli ref (Value.set externals idx (Value.object (with_host source_host ext))) u

  unfoldable pub reconfigure : Client → Ref → String → Exec World (Unit {0})
  unfolding reconfigure_at
  reconfigure cli ref source_host =
      if source_host == ""
      then fail (errorf "reconfigure cnpg cluster %s/%s: empty source host" (ref_args ref))
      else do
        u ← wrap "get cnpg cluster %s/%s: %w" (ref_args ref) (fetch cnpg_cluster cli ref)
        externals ←
            wrap "read spec.externalClusters %s/%s: %w" (ref_args ref)
              (from_result (or_error nil (p.nested_slice u external_clusters_path)))
        if nat_eq (Value.length externals) 0
            then fail (
                errorf "reconfigure cnpg cluster %s/%s: no spec.externalClusters to repoint"
                  (ref_args ref))
            else do
              let source = or_zero "" (p.nested_string u replica_source_path)
              idx ←
                  wrap "reconfigure cnpg cluster %s/%s: %w" (ref_args ref)
                    (from_result (external_cluster_index externals source))
              reconfigure_at cli ref source_host externals idx (as_object (Value.at externals idx))
                  u

  unfoldable pub flip_cilium_service : Client → Ref → ServiceRole → Exec World (Unit {0})
  unfolding affinity_value
  flip_cilium_service cli ref role = do
    svc ←
        wrap "get service %s/%s: %w" (ref_args (rw_service ref))
          (fetch service cli (rw_service ref))
    let ann = p.annotations svc
    if value_at annotation_cilium_global ann == "true"
          && value_at annotation_cilium_affinity ann == affinity_value role
        then pure tt
        else wrap "update service %s/%s: %w" (ref_args (rw_service ref)) (
            store service cli (
              p.set_annotations
                (insert annotation_cilium_affinity (affinity_value role)
                  (insert annotation_cilium_global "true" ann))
                svc))
