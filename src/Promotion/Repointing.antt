-- ===== src/Promotion/Repointing.antt =====
-- Reconfigure on each of its branches.
use cnpg_ha.Base.{
  ℕ, String, ◌≡◌, refl, ◌∙◌, inl, inr, true, false, ◌&&◌, some, nat_eq, ◌==◌, arith, Bool-cases,
  Option-cases,
}
use cnpg_ha.Base.Message.{errorf, wrapf, str, nat, end, arg}
use cnpg_ha.Base.Exec.{Result, ok, err, Result-cases}
use cnpg_ha.Value
use cnpg_ha.Value.{Value, Items, nil, Fields, as_object, is_str}
use cnpg_ha.Platform.{Platform, Ref, cnpg_cluster, found, or_zero, or_error}
use cnpg_ha.Platform.Laws.{ObjectLaws, ServerLaws, Untouched}
use cnpg_ha.Promotion.{
  replica_enabled_path, replica_source_path, external_clusters_path, ref_args,
  external_cluster_index, connection_parameters, with_host, repoint, reconfigure_at, reconfigure,
}
use cnpg_ha.Promotion.Outcome.{Outcome, failed, settled, Outcome-map}
use cnpg_ha.Promotion.Stored.{store_Outcome}

abbrev pub externals_of : (p : Platform) → Result p.Object → Items
externals_of p (ok o) = or_zero nil (p.nested_slice o external_clusters_path)
externals_of p (err e) = nil

module _ (p : Platform) where
  open p use {World, Client, Object}

  -- In the object, the external cluster that Reconfigure selects is `ext`, at `idx`.
  pub record Selects (o : Object) (externals : Items) (idx : ℕ) (ext : Fields) : Type 0 where
    pub externals_read : or_error nil (p.nested_slice o external_clusters_path) ≡ ok externals
    pub nonempty : nat_eq (Value.length externals) 0 ≡ false
    pub index_found :
        external_cluster_index externals (or_zero "" (p.nested_string o replica_source_path))
        ≡ ok idx
    pub object_at : as_object (Value.at externals idx) ≡ some ext

  -- The cluster is a replica, and the external cluster that it streams from has the host.
  abbrev pub IsFollower : Client → Ref → String → World → Type 0
  IsFollower cli ref host w =
      (o : Object) × (externals : Items) × (idx : ℕ) × (ext : Fields) × (p.get cnpg_cluster cli ref
          w
        ≡ ok o)
      × Selects o externals idx ext
      × (or_zero false (p.nested_bool o replica_enabled_path) ≡ true)
      × (is_str host (Value.lookup "host" (connection_parameters ext)) ≡ true)

  -- Reconfigure, once the external cluster is selected.
  reconfigure_of_Selects :
      (cli : Client) (ref : Ref) (host : String) (w : World) (o : Object) (externals : Items)
      (idx : ℕ) (ext : Fields)
      → (host == "") ≡ false
      → p.get cnpg_cluster cli ref w ≡ ok o
      → Selects o externals idx ext
      → reconfigure p cli ref host w ≡ reconfigure_at p cli ref host externals idx (some ext) o w
  unfolding reconfigure
  reconfigure_of_Selects cli ref host w o externals idx ext n g s =
      rw (n, g, s.externals_read, s.nonempty, s.index_found, s.object_at)

  pub reconfigure_of_IsFollower :
      (cli : Client) (ref : Ref) (host : String) (w : World)
      → (host == "") ≡ false
      → IsFollower cli ref host w
      → reconfigure p cli ref host w ≡ (ok tt, w)
  unfolding reconfigure_at
  reconfigure_of_IsFollower cli ref host w n (o, externals, idx, ext, g, s, b, h) =
      reconfigure_of_Selects cli ref host w o externals idx ext n g s ∙ rw (b, h)

module _ (p : Platform) (server : p.Client → String) (ol : ObjectLaws p) (sl : ServerLaws p server)
    (cli : p.Client) (ref : Ref) (host : String) (w : p.World) where
  open p use {World, Object}

  -- The new world holds a replica whose selected external cluster has the host.
  abbrev pub RepointWrote : World → Type 0
  RepointWrote v =
      (u o : Object) × (externals : Items) × (idx : ℕ) × (ext : Fields) × (p.get cnpg_cluster cli
          ref w
        ≡ ok u)
      × (p.get cnpg_cluster cli ref v ≡ ok o)
      × Selects p u externals idx ext
      × (p.nested_slice o external_clusters_path
          ≡ found (Value.set externals idx (Value.object (with_host host ext))))
      × (p.nested_string o replica_source_path ≡ p.nested_string u replica_source_path)
      × (p.nested_bool o replica_enabled_path ≡ found true)
      × (p.annotations o ≡ p.annotations u)
      × Untouched p server cnpg_cluster cli ref w v

  repoint-Outcome :
      (u : Object) (externals : Items) (idx : ℕ) (ext : Fields)
      → p.get cnpg_cluster cli ref w ≡ ok u
      → Selects p u externals idx ext
      → Outcome
          (repoint p cli ref (Value.set externals idx (Value.object (with_host host ext))) u)
          w
          ⊥
          RepointWrote
  unfolding repoint
  repoint-Outcome u externals idx ext g s =
      let vs = Value.set externals idx (Value.object (with_host host ext)) in
      elim (Result-cases (p.set_nested_slice vs external_clusters_path u)) [
        | inl (u1, a) ↦ elim (Result-cases (p.set_nested_bool true replica_enabled_path u1)) [
          | inl (u2, b) ↦
              let first = ol.set_slice_elsewhere vs external_clusters_path u u1 a in
              let second = ol.set_bool_elsewhere true replica_enabled_path u1 u2 b in
              Outcome-map (rw (a, b)) (λ x. x)
                (λ v (o, at, same, un). (
                  u,
                  o,
                  externals,
                  idx,
                  ext,
                  g,
                  at,
                  s,
                  same.slice_eq external_clusters_path
                      ∙ second.slice_kept external_clusters_path refl
                      ∙ ol.set_slice_read vs external_clusters_path u u1 a,
                  same.string_eq replica_source_path
                      ∙ second.string_kept replica_source_path refl
                      ∙ first.string_kept replica_source_path refl,
                  same.bool_eq replica_enabled_path
                      ∙ ol.set_bool_read true replica_enabled_path u1 u2 b,
                  same.annotations_eq ∙ second.annotations_kept ∙ first.annotations_kept,
                  un,
                ))
                (store_Outcome p server sl cli w cnpg_cluster ref u2
                  "reconfigure cnpg cluster %s/%s: %w" (ref_args ref)
                  (second.key_kept ∙ first.key_kept ∙ sl.key-get cnpg_cluster cli ref w u g))
          | inr (e, b) ↦
              failed (wrapf "set spec.replica.enabled %s/%s: %w" (ref_args ref) e) (rw (a, b))
        ]
        | inr (e, a) ↦ failed (wrapf "set spec.externalClusters %s/%s: %w" (ref_args ref) e) (rw a)
      ]

  selected_Outcome :
      (u : Object) (externals : Items) (idx : ℕ) (ext : Fields)
      → (host == "") ≡ false
      → p.get cnpg_cluster cli ref w ≡ ok u
      → Selects p u externals idx ext
      → Outcome (reconfigure p cli ref host) w (IsFollower p cli ref host w) RepointWrote
  unfolding reconfigure_at
  selected_Outcome u externals idx ext n g s =
      let step = reconfigure_of_Selects p cli ref host w u externals idx ext n g s in
      elim (Bool-cases (
        or_zero false (p.nested_bool u replica_enabled_path)
        && is_str host (Value.lookup "host" (connection_parameters ext)))) [
          | inl old ↦
              settled (step ∙ rw old) (u, externals, idx, ext, g, s, ground arith, ground arith)
          | inr new ↦
              Outcome-map (step ∙ rw new) (λ x. absurd x) (λ v x. x)
                (repoint-Outcome u externals idx ext g s)
        ]

  -- From the index on: the entry is an object, or Reconfigure fails.
  indexed_Outcome :
      (u : Object) (externals : Items) (idx : ℕ)
      → (host == "") ≡ false
      → p.get cnpg_cluster cli ref w ≡ ok u
      → or_error nil (p.nested_slice u external_clusters_path) ≡ ok externals
      → nat_eq (Value.length externals) 0 ≡ false
      → external_cluster_index externals (or_zero "" (p.nested_string u replica_source_path))
        ≡ ok idx
      → Outcome (reconfigure p cli ref host) w (IsFollower p cli ref host w) RepointWrote
  unfolding reconfigure
  indexed_Outcome u externals idx n g x l i =
      elim (Option-cases (as_object (Value.at externals idx))) [
        | inl missing ↦
            failed
              (errorf "reconfigure cnpg cluster %s/%s: externalClusters[%d] is not an object"
                (arg (str ref.namespace) (arg (str ref.name) (arg (nat idx) end))))
              (rw (n, g, x, l, i, missing))
        | inr (ext, e) ↦
            selected_Outcome u externals idx ext n g
              (record { externals_read = x; nonempty = l; index_found = i; object_at = e })
      ]

  read_Outcome :
      (u : Object) (externals : Items)
      → (host == "") ≡ false
      → p.get cnpg_cluster cli ref w ≡ ok u
      → or_error nil (p.nested_slice u external_clusters_path) ≡ ok externals
      → nat_eq (Value.length externals) 0 ≡ false
      → Outcome (reconfigure p cli ref host) w (IsFollower p cli ref host w) RepointWrote
  unfolding reconfigure
  read_Outcome u externals n g x l =
      elim (Result-cases
        (external_cluster_index externals (or_zero "" (p.nested_string u replica_source_path)))) [
          | inl (idx, i) ↦ indexed_Outcome u externals idx n g x l i
          | inr (e, i) ↦
              failed (wrapf "reconfigure cnpg cluster %s/%s: %w" (ref_args ref) e)
                (rw (n, g, x, l, i))
        ]

  pub reconfigure-Outcome :
      Outcome (reconfigure p cli ref host) w (IsFollower p cli ref host w) RepointWrote
  unfolding reconfigure
  reconfigure-Outcome = elim (Bool-cases (host == "")) [
    | inl n ↦
        failed (errorf "reconfigure cnpg cluster %s/%s: empty source host" (ref_args ref)) (rw n)
    | inr n ↦ elim (Result-cases (p.get cnpg_cluster cli ref w)) [
      | inl (u, g) ↦ elim (Result-cases (or_error nil (p.nested_slice u external_clusters_path))) [
        | inl (externals, x) ↦ elim (Bool-cases (nat_eq (Value.length externals) 0)) [
          | inl l ↦
              failed
                (errorf "reconfigure cnpg cluster %s/%s: no spec.externalClusters to repoint"
                  (ref_args ref))
                (rw (n, g, x, l))
          | inr l ↦ read_Outcome u externals n g x l
        ]
        | inr (e, x) ↦
            failed (wrapf "read spec.externalClusters %s/%s: %w" (ref_args ref) e) (rw (n, g, x))
      ]
      | inr (e, g) ↦ failed (wrapf "get cnpg cluster %s/%s: %w" (ref_args ref) e) (rw (n, g))
    ]
  ]
  -- The entry that Reconfigure writes keeps the selection.
