-- ===== src/Platform/Laws.antt =====
-- The documented behaviour of the platform that theorems rely on, as named hypotheses.
use cnpg_ha.Base.{
  String, ◌≡◌, ◌≢◌, ◌⊎◌, Bool, true, false, List, [], ◌∷◌, Map, ◌==◌, Option, none, some,
  if◌then◌else◌,
}
use cnpg_ha.Base.Exec.{ok, err}
use cnpg_ha.Base.Message.{Err}
use cnpg_ha.Api.{HaCluster, Condition}
use cnpg_ha.Value.{Items}
use cnpg_ha.Platform.{Platform, Ref, Kind, found}

-- Neither path is a prefix of the other.
abbrev pub apart : List String → List String → Bool
apart [] _ = false
apart (_ ∷ _) [] = false
apart (a ∷ p) (b ∷ q) = elim (a == b) [ true ↦ apart p q | false ↦ true ]

-- The condition of a type, as meta.FindStatusCondition finds it.
abbrev pub find_condition : String → List Condition → Option Condition
find_condition kind [] = none
find_condition kind (c ∷ cs) = if c.kind == kind then some c else find_condition kind cs

module _ (p : Platform) where
  open p use {World, Client, Object}

  -- Two objects that every accessor reads alike.
  pub record Alike (o o' : Object) : Type 0 where
    pub key_eq : p.key o' ≡ p.key o
    pub annotations_eq : p.annotations o' ≡ p.annotations o
    pub bool_eq : (q : List String) → p.nested_bool o' q ≡ p.nested_bool o q
    pub string_eq : (q : List String) → p.nested_string o' q ≡ p.nested_string o q
    pub int64_eq : (q : List String) → p.nested_int64 o' q ≡ p.nested_int64 o q
    pub slice_eq : (q : List String) → p.nested_slice o' q ≡ p.nested_slice o q

  -- A write at a path leaves the key, the annotations and all paths apart from it as they were.
  pub record Elsewhere (w : List String) (o o' : Object) : Type 0 where
    pub key_kept : p.key o' ≡ p.key o
    pub annotations_kept : p.annotations o' ≡ p.annotations o
    pub bool_kept : (q : List String) → apart w q ≡ true → p.nested_bool o' q ≡ p.nested_bool o q
    pub string_kept :
        (q : List String) → apart w q ≡ true → p.nested_string o' q ≡ p.nested_string o q
    pub int64_kept : (q : List String) → apart w q ≡ true → p.nested_int64 o' q ≡ p.nested_int64 o q
    pub slice_kept : (q : List String) → apart w q ≡ true → p.nested_slice o' q ≡ p.nested_slice o q

  -- The accessors of package unstructured.
  pub record ObjectLaws : Type 0 where
    pub key-set_annotations :
        (m : Map String) (o : Object) → p.key (p.set_annotations m o) ≡ p.key o
    pub annotations-set_annotations :
        (m : Map String) (o : Object) → p.annotations (p.set_annotations m o) ≡ m
    pub bool-set_annotations :
        (m : Map String) (o : Object) (q : List String)
        → p.nested_bool (p.set_annotations m o) q ≡ p.nested_bool o q
    pub string-set_annotations :
        (m : Map String) (o : Object) (q : List String)
        → p.nested_string (p.set_annotations m o) q ≡ p.nested_string o q
    pub int64-set_annotations :
        (m : Map String) (o : Object) (q : List String)
        → p.nested_int64 (p.set_annotations m o) q ≡ p.nested_int64 o q
    pub slice-set_annotations :
        (m : Map String) (o : Object) (q : List String)
        → p.nested_slice (p.set_annotations m o) q ≡ p.nested_slice o q
    pub set_bool_read :
        (b : Bool) (q : List String) (o o' : Object)
        → p.set_nested_bool b q o ≡ ok o'
        → p.nested_bool o' q ≡ found b
    pub set_bool_elsewhere :
        (b : Bool) (q : List String) (o o' : Object)
        → p.set_nested_bool b q o ≡ ok o'
        → Elsewhere q o o'
    pub set_slice_read :
        (vs : Items) (q : List String) (o o' : Object)
        → p.set_nested_slice vs q o ≡ ok o'
        → p.nested_slice o' q ≡ found vs
    pub set_slice_elsewhere :
        (vs : Items) (q : List String) (o o' : Object)
        → p.set_nested_slice vs q o ≡ ok o'
        → Elsewhere q o o'

  -- Every object that is of another kind, at another server or of another name reads in the second
  -- world as in the first.
  abbrev pub Untouched : (server : Client → String) → Kind → Client → Ref → World → World → Type 0
  Untouched server k c r w v =
      (k' : Kind) (c' : Client) (r' : Ref)
      → (k ≢ k') ⊎ (server c ≢ server c') ⊎ (r ≢ r')
      → p.get k' c' r' v ≡ p.get k' c' r' w

  -- An API server, while nobody else writes between two calls of one step. `server` tells the
  -- servers that clients talk to apart.
  pub record ServerLaws (server : Client → String) : Type 0 where
    pub get_server :
        (k : Kind) (c c' : Client) (r : Ref) (w : World)
        → server c ≡ server c'
        → p.get k c r w ≡ p.get k c' r w
    pub key-get :
        (k : Kind) (c : Client) (r : Ref) (w : World) (o : Object)
        → p.get k c r w ≡ ok o
        → p.key o ≡ r
    -- What an accepted update stored is read back, and reads as what was sent.
    pub get-update :
        (k : Kind) (c : Client) (o o' : Object) (w : World)
        → (p.update k c o w).0 ≡ ok o'
        → p.get k c (p.key o) (p.update k c o w).1 ≡ ok o'
    pub update-Alike :
        (k : Kind) (c : Client) (o o' : Object) (w : World)
        → (p.update k c o w).0 ≡ ok o'
        → Alike o o'
    -- An update touches the object that it names, and no other.
    pub get-update_other :
        (k : Kind) (c : Client) (o : Object) (w : World)
        → Untouched server k c (p.key o) w (p.update k c o w).1
    -- An update that fails has been refused and changes nothing; one whose answer is lost is left out.
    pub get-update_refused :
        (k : Kind) (c : Client) (o : Object) (w : World) (e : Err)
        → (p.update k c o w).0 ≡ err e
        → (p.update k c o w).1 ≡ w

  -- meta.SetStatusCondition: the condition of the type has the status, the reason and the message,
  -- and its time of transition may be that of before; the other types are as before.
  pub record ConditionLaws : Type 0 where
    pub find-set_condition :
        (c : Condition) (cs : List Condition)
        → (d : Condition) × (find_condition c.kind (p.set_condition c cs) ≡ some d)
          × (d.status ≡ c.status)
          × (d.reason ≡ c.reason)
          × (d.message ≡ c.message)
    pub find-set_condition_other :
        (c : Condition) (kind : String) (cs : List Condition)
        → (c.kind == kind) ≡ false
        → find_condition kind (p.set_condition c cs) ≡ find_condition kind cs

  -- No write of the program is one of a Secret.
  pub record SecretLaws : Type 0 where
    pub secret-update :
        (k : Kind) (c c' : Client) (o : Object) (r : Ref) (w : World)
        → p.get_secret c' r (p.update k c o w).1 ≡ p.get_secret c' r w
    pub secret-remove_annotation :
        (key : String) (ha : HaCluster) (c : Client) (r : Ref) (w : World)
        → p.get_secret c r (p.remove_annotation key ha w).1 ≡ p.get_secret c r w
    pub secret-update_status :
        (ha : HaCluster) (c : Client) (r : Ref) (w : World)
        → p.get_secret c r (p.update_status ha w).1 ≡ p.get_secret c r w

  -- The server answers with the HACluster that was asked for or sent, by its namespace and name.
  pub record HubLaws : Type 0 where
    pub key-get_ha :
        (key : Ref) (w : World) (ha : HaCluster)
        → p.get_ha key w ≡ ok ha
        → (ha.namespace ≡ key.namespace) × (ha.name ≡ key.name)
    pub key-remove_annotation :
        (key : String) (ha ha' : HaCluster) (w : World)
        → (p.remove_annotation key ha w).0 ≡ ok ha'
        → (ha'.namespace ≡ ha.namespace) × (ha'.name ≡ ha.name)
    pub key-update_status :
        (ha ha' : HaCluster) (w : World)
        → (p.update_status ha w).0 ≡ ok ha'
        → (ha'.namespace ≡ ha.namespace) × (ha'.name ≡ ha.name)

  -- The two writes of the HACluster, while nobody else writes: they change no object at a site, and
  -- the answer has the spec that was sent.
  pub record HubWriteLaws : Type 0 where
    pub get-remove_annotation :
        (key : String) (ha : HaCluster) (k : Kind) (c : Client) (r : Ref) (w : World)
        → p.get k c r (p.remove_annotation key ha w).1 ≡ p.get k c r w
    pub get-update_status :
        (ha : HaCluster) (k : Kind) (c : Client) (r : Ref) (w : World)
        → p.get k c r (p.update_status ha w).1 ≡ p.get k c r w
    pub spec-remove_annotation :
        (key : String) (ha ha' : HaCluster) (w : World)
        → (p.remove_annotation key ha w).0 ≡ ok ha'
        → ha'.spec ≡ ha.spec
    pub spec-update_status :
        (ha ha' : HaCluster) (w : World) → (p.update_status ha w).0 ≡ ok ha' → ha'.spec ≡ ha.spec
