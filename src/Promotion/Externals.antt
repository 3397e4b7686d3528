-- ===== src/Promotion/Externals.antt =====
-- externalClusterIndex, and the rewriting of one external cluster that Reconfigure makes.
use cnpg_ha.Base.{
  ℕ, zero, suc, String, ◌≡◌, refl, sym, ap, ◌∙◌, true, false, arith, eq_iff, some, ◌==◌, eq_refl,
  text_or_empty,
}
use cnpg_ha.Value
use cnpg_ha.Value.{Value, Items, nil, cons, Fields, as_object, as_string, is_str}
use cnpg_ha.Promotion.{
  is_named, index_from, external_cluster_index, connection_parameters, with_host, or_empty,
}

-- Writing an entry that has the name of the old one moves no index.
index_from-set :
    (source : String) (vs : Items) (n k : ℕ) (w : Value)
    → is_named source w ≡ is_named source (Value.at vs k)
    → index_from source (Value.set vs k w) n ≡ index_from source vs n
unfolding index_from
index_from-set source nil n k w h = refl
index_from-set source (cons v vs) n zero w h = rw h
index_from-set source (cons v vs) n (suc k) w h = rw (index_from-set source vs (suc n) k w h)

pub external_cluster_index-set :
    (vs : Items) (source : String) (k : ℕ) (w : Value)
    → is_named source w ≡ is_named source (Value.at vs k)
    → external_cluster_index (Value.set vs k w) source ≡ external_cluster_index vs source
unfolding external_cluster_index
external_cluster_index-set vs source k w h =
    rw (Value.length-set vs k w, index_from-set source vs 0 k w h)

-- The name of an external cluster stays when its host is replaced.
pub is_named-with_host :
    (source host : String) (v : Value) (ext : Fields)
    → as_object v ≡ some ext
    → is_named source (Value.object (with_host host ext)) ≡ is_named source v
unfolding is_named with_host
is_named-with_host source host (Value.object m) ext h =
    rw Value.lookup-insert
      (ap (λ o. text_or_empty (as_string (Value.lookup "name" (or_empty o))) == source) (sym h))
is_named-with_host source host _ ext h = cc

-- Its host is the new one, and its other connection parameters are the old ones.
pub connection_parameters-with_host :
    (host : String) (ext : Fields)
    → connection_parameters (with_host host ext)
      ≡ Value.insert "host" (Value.str host) (connection_parameters ext)
unfolding with_host connection_parameters
connection_parameters-with_host host ext = rw Value.lookup-insert

pub host-with_host :
    (host : String) (ext : Fields)
    → is_str host (Value.lookup "host" (connection_parameters (with_host host ext))) ≡ true
host-with_host host ext = rw (connection_parameters-with_host, Value.lookup-insert) (eq_refl host)

pub object_of_as_object : (v : Value) (m : Fields) → as_object v ≡ some m → v ≡ Value.object m
object_of_as_object (Value.object x) m h = cc
object_of_as_object _ m h = cc

-- The fields of an object, none where the value is no object.
abbrev fields_of : Value → Fields
fields_of (Value.object m) = m
fields_of _ = Fields.end

fields_of_lem : (v : Value) → or_empty (as_object v) ≡ fields_of v
fields_of_lem (Value.object m) = refl
fields_of_lem Value.null = refl
fields_of_lem (Value.flag b) = refl
fields_of_lem (Value.int n) = refl
fields_of_lem (Value.str t) = refl
fields_of_lem (Value.slice vs) = refl

-- The same external cluster with the host: only the connection parameters differ, and among these
-- only the host.
abbrev pub IsRehosted : String → Fields → Fields → Type 0
IsRehosted host old new =
    ((key : String)
      → (key == "connectionParameters") ≡ false
      → Value.lookup key new ≡ Value.lookup key old)
    × ((params : Fields) × (Value.lookup "connectionParameters" new ≡ Value.object params)
        × (Value.lookup "host" params ≡ Value.str host)
        × ((key : String)
            → (key == "host") ≡ false
            → Value.lookup key params
              ≡ Value.lookup key (fields_of (Value.lookup "connectionParameters" old))))

-- A key that is not inserted is as before.
lookup-insert_ne :
    (key other : String) (value : Value) (m : Fields)
    → (other == key) ≡ false
    → Value.lookup other (Value.insert key value m) ≡ Value.lookup other m
lookup-insert_ne key other value m n =
    ground (arith, Value.lookup-insert key other value m, eq_iff key other, eq_iff other key)

pub with_host-IsRehosted : (host : String) (ext : Fields) → IsRehosted host ext (with_host host ext)
unfolding with_host connection_parameters
with_host-IsRehosted host ext =
    let params = Value.insert "host" (Value.str host) (connection_parameters ext) in
    (
      λ key n. lookup-insert_ne "connectionParameters" key (Value.object params) ext n,
      (
        params,
        rw Value.lookup-insert refl,
        rw Value.lookup-insert refl,
        λ key n.
            lookup-insert_ne "host" key (Value.str host) (connection_parameters ext) n
            ∙ ap (Value.lookup key) (fields_of_lem (Value.lookup "connectionParameters" ext)),
      ),
    )
