-- ===== src/Sim.antt =====
-- A concrete platform on which the tests run: API servers named by texts, which hold bodies of
-- objects under a kind and a reference, may refuse updates, and are written by no one else.
pub mod Laws
pub mod Hub
pub mod Collectors
pub mod Conditions
use cnpg_ha.Base.{
  ℕ, zero, suc, ◌+◌, ◌*◌, String, Bool, true, false, ◌&&◌, Option, none, some, List, [], ◌∷◌, Map,
  lookup, delete, ◌==◌, if◌then◌else◌,
}
use cnpg_ha.Base.Int.{ℤ, pos, negsuc}
use cnpg_ha.Base.Message.{Err, api, not_found, conflict, errorf, end}
use cnpg_ha.Base.Exec.{Result, ok, err}
use cnpg_ha.Api.{HaCluster, Condition, Time, Float64}
use cnpg_ha.Value.{Value, Items, flag, int, str, slice}
use cnpg_ha.Platform.{
  Platform, Kind, cnpg_cluster, service, Ref, Secret, Nested, found, absent, mistyped, WalRow,
  ConnUrl,
}

pub record Body : Type 0 where
  pub labels : Map String
  pub at_path : List String → Option Value

pub record Stored : Type 0 where
  pub key : Ref
  pub body : Body

pub record SimWorld : Type 0 where
  pub bodies : Kind → String → Ref → Option Body
  pub refuses : String → Bool
  pub secrets : String → Ref → Option Secret
  pub clusters : Ref → Option HaCluster
  pub rows : String → Option WalRow
  pub clock : Time

abbrev pub kind_eq : Kind → Kind → Bool
kind_eq cnpg_cluster cnpg_cluster = true
kind_eq service service = true
kind_eq _ _ = false

abbrev pub ref_eq : Ref → Ref → Bool
ref_eq a b = a.namespace == b.namespace && a.name == b.name

abbrev pub path_eq : List String → List String → Bool
path_eq [] [] = true
path_eq (a ∷ p) (b ∷ q) = elim (a == b) [ true ↦ path_eq p q | false ↦ false ]
path_eq _ _ = false

abbrev pub or_not_found : {A : Type 0} → Option A → Result A
or_not_found none = err (api not_found)
or_not_found (some a) = ok a

abbrev pub with_key : Ref → Option Body → Option Stored
with_key r none = none
with_key r (some b) = some (record { key = r; body = b })

abbrev pub sim_get : Kind → String → Ref → SimWorld → Result Stored
sim_get k c r w = or_not_found (with_key r (w.bodies k c r))

abbrev pub put : Kind → String → Stored → SimWorld → SimWorld
put k c o w = record w {
  bodies = λ k' c' r.
      if kind_eq k k' && (c == c' && ref_eq o.key r) then some o.body else w.bodies k' c' r;
}

abbrev pub sim_update : Kind → String → Stored → SimWorld → Result Stored × SimWorld
sim_update k c o w = if w.refuses c then (err (api conflict), w) else elim (w.bodies k c o.key) [
  | none ↦ (err (api not_found), w)
  | some b ↦ (ok o, put k c o w)
]

abbrev pub typed_bool : Option Value → Nested Bool
typed_bool none = absent
typed_bool (some (flag b)) = found b
typed_bool (some _) = mistyped (errorf "accessor error" end)

abbrev pub typed_string : Option Value → Nested String
typed_string none = absent
typed_string (some (str s)) = found s
typed_string (some _) = mistyped (errorf "accessor error" end)

abbrev pub typed_int : Option Value → Nested ℤ
typed_int none = absent
typed_int (some (int n)) = found n
typed_int (some _) = mistyped (errorf "accessor error" end)

abbrev pub typed_slice : Option Value → Nested Items
typed_slice none = absent
typed_slice (some (slice vs)) = found vs
typed_slice (some _) = mistyped (errorf "accessor error" end)

abbrev pub write : Value → List String → Stored → Stored
write v q o = record o {
  body = record o.body { at_path = λ r. if path_eq q r then some v else o.body.at_path r };
}

-- Replaces the condition of the same type, or adds one at the end.
abbrev pub set_condition : Condition → List Condition → List Condition
set_condition c [] = c ∷ []
set_condition c (d ∷ ds) = if d.kind == c.kind then c ∷ ds else d ∷ set_condition c ds

abbrev pub put_cluster : HaCluster → SimWorld → SimWorld
put_cluster ha w = record w {
  clusters = λ r.
      if ref_eq (record { namespace = ha.namespace; name = ha.name }) r
      then some ha
      else w.clusters r;
}

abbrev pub with_ref : Ref → Option HaCluster → Option HaCluster
with_ref r none = none
with_ref r (some ha) = some (record ha { namespace = r.namespace; name = r.name })

abbrev pub sim : Platform
sim = record {
  World = SimWorld;
  Client = String;
  Object = Stored;
  RestConfig = String;
  get = sim_get;
  update = sim_update;
  get_secret = λ c r w. or_not_found (w.secrets c r);
  get_ha = λ r w. or_not_found (with_ref r (w.clusters r));
  remove_annotation = λ k ha w.
      let ha' = record ha { annotations = delete k ha.annotations } in (ok ha', put_cluster ha' w);
  update_status = λ ha w. (ok ha, put_cluster ha w);
  key = λ o. o.key;
  annotations = λ o. o.body.labels;
  set_annotations = λ m o. record o { body = record o.body { labels = m } };
  nested_bool = λ o q. typed_bool (o.body.at_path q);
  nested_string = λ o q. typed_string (o.body.at_path q);
  nested_int64 = λ o q. typed_int (o.body.at_path q);
  nested_slice = λ o q. typed_slice (o.body.at_path q);
  set_nested_bool = λ b q o. ok (write (flag b) q o);
  set_nested_slice = λ vs q o. ok (write (slice vs) q o);
  rest_config = λ s. if s == "" then err (errorf "invalid configuration" end) else ok s;
  new_client = λ s. ok s;
  set_condition = set_condition;
  connect = λ u w. ok 0;
  query_wal = λ c w. or_not_found (w.rows "db");
  now = λ w. w.clock;
  to_millis = λ x. pos (x * 1000);
  of_ℕ = λ n. n;
  duration_seconds = λ d. 0;
}
