-- ===== src/Platform.antt =====
-- The code that cnpg-ha calls and does not contain: the Kubernetes clients and API servers, the
-- accessors of unstructured objects, client-go's kubeconfig loader, meta.SetStatusCondition, the
-- PostgreSQL driver, the clock and float64 arithmetic. It is a parameter of the model.
pub mod Laws
pub mod Places
use cnpg_ha.Base.{ℕ, String, Bool, Option, List, Map}
use cnpg_ha.Base.Int.{ℤ}
use cnpg_ha.Base.Message.{Err}
use cnpg_ha.Base.Exec.{Result, ok, err}
use cnpg_ha.Api.{HaCluster, Condition, Time, Float64}
use cnpg_ha.Value.{Items}

-- types.NamespacedName, and promotion.Ref, which has the same two fields.
pub record Ref : Type 0 where
  pub namespace : String
  pub name : String

-- The two kinds of objects that are changed at the sites.
pub data Kind : Type 0 where
  cnpg_cluster service : Kind

-- corev1.Secret, as far as it is read.
pub record Secret : Type 0 where
  pub content : Map String
  pub resource_version : String

-- What unstructured.NestedBool and its like return.
pub data Nested (A : Type 0) : Type 0 where
  found : A → Nested A
  absent : Nested A
  mistyped : Err → Nested A

-- The value with an absent field read as the zero value, and a field of another type too, or as
-- an error.
abbrev pub or_zero : {A : Type 0} → A → Nested A → A
or_zero z (found v) = v
or_zero z _ = z

abbrev pub or_error : {A : Type 0} → A → Nested A → Result A
or_error z (found v) = ok v
or_error z absent = ok z
or_error z (mistyped e) = err e

-- The two results of the probe query that the program uses, and whether the lag is NULL.
pub record WalRow : Type 0 where
  pub in_recovery : Bool
  pub lsn : String
  pub lag : Option Float64

-- A port as it stands in a text, or strconv.Itoa of a number.
pub data Port : Type 0 where
  named : String → Port
  itoa : ℤ → Port

-- The connection URL that postgres.connString assembles, by its parts.
pub record ConnUrl : Type 0 where
  pub user : String
  pub password : String
  pub host : String
  pub port : Port
  pub path : String
  pub ssl_mode : String

pub record Platform : Type 1 where
  -- All that lies outside the operator: API servers, databases, the clock.
  pub World : Type 0
  -- A client.Client, and an object that one returns.
  pub Client : Type 0
  pub Object : Type 0
  pub RestConfig : Type 0
  -- client.Get and client.Update of a CNPG Cluster or a Service. Update leaves in its argument
  -- what the server stored.
  pub get : Kind → Client → Ref → World → Result Object
  pub update : Kind → Client → Object → World → Result Object × World
  pub get_secret : Client → Ref → World → Result Secret
  -- Get, merge-patch and status update of the HACluster in the hub. Both writes leave in their
  -- argument what the server returned.
  pub get_ha : Ref → World → Result HaCluster
  pub remove_annotation : String → HaCluster → World → Result HaCluster × World
  pub update_status : HaCluster → World → Result HaCluster × World
  -- GetAnnotations, SetAnnotations and the nested accessors.
  pub key : Object → Ref
  pub annotations : Object → Map String
  pub set_annotations : Map String → Object → Object
  pub nested_bool : Object → List String → Nested Bool
  pub nested_string : Object → List String → Nested String
  pub nested_int64 : Object → List String → Nested ℤ
  pub nested_slice : Object → List String → Nested Items
  pub set_nested_bool : Bool → List String → Object → Result Object
  pub set_nested_slice : Items → List String → Object → Result Object
  -- clientcmd.RESTConfigFromKubeConfig and client.New.
  pub rest_config : String → Result RestConfig
  pub new_client : RestConfig → Result Client
  -- meta.SetStatusCondition.
  pub set_condition : Condition → List Condition → List Condition
  -- pgx.Connect, and QueryRow with Scan.
  pub connect : ConnUrl → World → Result ℕ
  pub query_wal : ℕ → World → Result WalRow
  -- metav1.Now and time.Now; int64(x * 1000), float64(n) and Duration.Seconds.
  pub now : World → Time
  pub to_millis : Float64 → ℤ
  pub of_ℕ : ℕ → Float64
  pub duration_seconds : ℤ → Float64
