-- ===== src/Promotion/Annotations.antt =====
-- What Fence and FlipCiliumService share: an update that writes annotations.
use cnpg_ha.Base.{String, ◌≡◌, refl, ◌∙◌, List, Map}
use cnpg_ha.Base.Message.{Args}
use cnpg_ha.Base.Exec.{ok, wrap}
use cnpg_ha.Health.{parse_cluster}
use cnpg_ha.Platform.{Platform, Ref, Kind}
use cnpg_ha.Platform.Laws.{ObjectLaws, ServerLaws, Untouched}
use cnpg_ha.Promotion.{store}
use cnpg_ha.Promotion.Outcome.{Outcome, Outcome-map}
use cnpg_ha.Promotion.Stored.{store_Outcome}

parse_cluster_same :
    (p : Platform) (u o : p.Object)
    → ((q : List String) → p.nested_bool o q ≡ p.nested_bool u q)
    → ((q : List String) → p.nested_string o q ≡ p.nested_string u q)
    → ((q : List String) → p.nested_int64 o q ≡ p.nested_int64 u q)
    → parse_cluster p o ≡ parse_cluster p u
unfolding parse_cluster
parse_cluster_same p u o b t n = rw (b, t, n, n)

module _ (p : Platform) (server : p.Client → String) (ol : ObjectLaws p) (sl : ServerLaws p server)
    (cli : p.Client) (w : p.World) where
  open p use {World, Object}

  -- The fields that Reconfigure reads are the same.
  abbrev pub SameFields : Object → Object → Type 0
  SameFields u o =
      ((q : List String) → p.nested_bool o q ≡ p.nested_bool u q)
      × ((q : List String) → p.nested_string o q ≡ p.nested_string u q)
      × ((q : List String) → p.nested_slice o q ≡ p.nested_slice u q)

  -- The second world holds an object with the annotations `m`, whose fields read as those of `u`,
  -- and all else as the first one.
  abbrev pub Annotated : Kind → Ref → Map String → Object → World → Type 0
  Annotated k r m u v =
      (o : Object) × (p.get k cli r v ≡ ok o)
      × (p.annotations o ≡ m)
      × (parse_cluster p o ≡ parse_cluster p u)
      × Untouched p server k cli r w v
      × SameFields u o

  -- The update of an annotated object, under the wrapping of its error.
  pub annotate_Outcome :
      (k : Kind) (r : Ref) (m : Map String) (u : Object) (f : String) (a : Args)
      → p.get k cli r w ≡ ok u
      → Outcome (wrap f a (store p k cli (p.set_annotations m u))) w ⊥ (Annotated k r m u)
  annotate_Outcome k r m u f a g =
      Outcome-map refl (λ x. x)
        (λ v (o, at, same, un). (
          o,
          at,
          same.annotations_eq ∙ ol.annotations-set_annotations m u,
          parse_cluster_same p u o (λ q. same.bool_eq q ∙ ol.bool-set_annotations m u q)
              (λ q. same.string_eq q ∙ ol.string-set_annotations m u q)
              (λ q. same.int64_eq q ∙ ol.int64-set_annotations m u q),
          un,
          (
            λ q. same.bool_eq q ∙ ol.bool-set_annotations m u q,
            λ q. same.string_eq q ∙ ol.string-set_annotations m u q,
            λ q. same.slice_eq q ∙ ol.slice-set_annotations m u q,
          ),
        ))
        (store_Outcome p server sl cli w k r (p.set_annotations m u) f a
          (ol.key-set_annotations m u ∙ sl.key-get k cli r w u g))
