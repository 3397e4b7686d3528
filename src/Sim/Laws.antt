-- ===== src/Sim/Laws.antt =====
-- The concrete platform behaves as the laws say.
use cnpg_ha.Base.{
  String, ◌≡◌, ◌≢◌, refl, sym, subst, ◌∙◌, ap, ◌⊎◌, inl, inr, Bool, true, false, ◌&&◌, Option, some,
  List, [], ◌∷◌, ◌==◌, eq_iff, eq_refl, arith, if◌then◌else◌, Bool-cases,
}
use cnpg_ha.Base.Exec.{ok}
use cnpg_ha.Value.{Value, flag, slice}
use cnpg_ha.Platform.{Kind, cnpg_cluster, service, Ref}
use cnpg_ha.Platform.Laws.{apart, Alike, Elsewhere, ObjectLaws, Untouched, ServerLaws}
use cnpg_ha.Sim.{
  sim, Body, Stored, SimWorld, typed_bool, typed_slice, with_key, or_not_found, sim_update, sim_get,
  put, kind_eq, ref_eq, path_eq, write,
}

path_eq_refl : (q : List String) → path_eq q q ≡ true
path_eq_refl [] = refl
path_eq_refl (a ∷ q) = rw (path_eq, eq_refl a) (path_eq_refl q)

path_eq_of_apart : (q r : List String) → apart q r ≡ true → path_eq q r ≡ false
path_eq_of_apart [] r h = cc
path_eq_of_apart (a ∷ q) [] h = refl
path_eq_of_apart (a ∷ q) (b ∷ r) h = ground (arith, path_eq_of_apart q r)

write-Elsewhere : (v : Value) (q : List String) (o : Stored) → Elsewhere sim q o (write v q o)
write-Elsewhere v q o = record {
  key_kept = refl;
  annotations_kept = refl;
  bool_kept = λ r h. rw (path_eq_of_apart q r h);
  string_kept = λ r h. rw (path_eq_of_apart q r h);
  int64_kept = λ r h. rw (path_eq_of_apart q r h);
  slice_kept = λ r h. rw (path_eq_of_apart q r h);
}

write_same : (v : Value) (q : List String) (o : Stored) → (write v q o).body.at_path q ≡ some v
write_same v q o = rw (path_eq_refl q)

written :
    (v : Value) (q : List String) (o o' : Stored) → ok (write v q o) ≡ ok o' → write v q o ≡ o'
written v q o o' h = cc

pub sim-ObjectLaws : ObjectLaws sim
sim-ObjectLaws = record {
  key-set_annotations = λ m o. refl;
  annotations-set_annotations = λ m o. refl;
  bool-set_annotations = λ m o q. refl;
  string-set_annotations = λ m o q. refl;
  int64-set_annotations = λ m o q. refl;
  slice-set_annotations = λ m o q. refl;
  set_bool_read = λ b q o o' h.
      ap (λ x. typed_bool (x.body.at_path q)) (sym (written (flag b) q o o' h))
      ∙ ap typed_bool (write_same (flag b) q o);
  set_bool_elsewhere = λ b q o o' h.
      subst (Elsewhere sim q o) (written (flag b) q o o' h) (write-Elsewhere (flag b) q o);
  set_slice_read = λ vs q o o' h.
      ap (λ x. typed_slice (x.body.at_path q)) (sym (written (slice vs) q o o' h))
      ∙ ap typed_slice (write_same (slice vs) q o);
  set_slice_elsewhere = λ vs q o o' h.
      subst (Elsewhere sim q o) (written (slice vs) q o o' h) (write-Elsewhere (slice vs) q o);
}

kind_eq_refl : (k : Kind) → kind_eq k k ≡ true
kind_eq_refl cnpg_cluster = refl
kind_eq_refl service = refl

kind-eq : (k k' : Kind) → kind_eq k k' ≡ true → k ≡ k'
kind-eq k k' h = ground arith

ref_eq_refl : (r : Ref) → ref_eq r r ≡ true
ref_eq_refl r = rw (eq_refl, eq_refl)

ref-eq : (a b : Ref) → ref_eq a b ≡ true → a ≡ b
ref-eq a b h = ground (arith, eq_iff a.namespace b.namespace, eq_iff a.name b.name)

key-with_key :
    (r : Ref) (b : Option Body) (o : Stored) → or_not_found (with_key r b) ≡ ok o → o.key ≡ r
key-with_key r b o h = ground arith

-- An accepted update is a `put`.
accepted :
    (k : Kind) (c : String) (o o' : Stored) (w : SimWorld)
    → (sim_update k c o w).0 ≡ ok o'
    → (sim_update k c o w ≡ (ok o, put k c o w)) × (o ≡ o')
accepted k c o o' w h = ground arith

put_read :
    (k : Kind) (c : String) (o : Stored) (w : SimWorld) → sim_get k c o.key (put k c o w) ≡ ok o
put_read k c o w = rw (kind_eq_refl k, eq_refl c, ref_eq_refl o.key)

abbrev same_place : Kind → Kind → String → String → Ref → Ref → Bool
same_place k k' c c' a r = kind_eq k k' && (c == c' && ref_eq a r)

same_place-eq :
    (k k' : Kind) (c c' : String) (a r : Ref)
    → same_place k k' c c' a r ≡ true
    → (k ≡ k') × (c ≡ c') × (a ≡ r)
same_place-eq k k' c c' a r h =
    (kind-eq k k' (ground arith), (eq_iff c c').0 (ground arith), ref-eq a r (ground arith))

not_apart :
    (k k' : Kind) (c c' : String) (a r : Ref)
    → (k ≢ k') ⊎ (c ≢ c') ⊎ (a ≢ r)
    → (k ≡ k') × (c ≡ c') × (a ≡ r)
    → ⊥
not_apart k k' c c' a r (inl n) (x, y, z) = n x
not_apart k k' c c' a r (inr (inl n)) (x, y, z) = n y
not_apart k k' c c' a r (inr (inr n)) (x, y, z) = n z

put_other :
    (k : Kind) (c : String) (o : Stored) (w : SimWorld)
    → Untouched sim (λ c. c) k c o.key w (put k c o w)
put_other k c o w k' c' r h = elim (Bool-cases (same_place k k' c c' o.key r)) [
  | inl t ↦ absurd (not_apart k k' c c' o.key r h (same_place-eq k k' c c' o.key r t))
  | inr f ↦ ap (λ b. or_not_found (with_key r (if b then some o.body else w.bodies k' c' r))) f
]

pub updated_world :
    (k : Kind) (c : String) (o : Stored) (w : SimWorld)
    → ((sim_update k c o w).1 ≡ w) ⊎ ((sim_update k c o w).1 ≡ put k c o w)
updated_world k c o w = ground arith

update_other :
    (k : Kind) (c : String) (o : Stored) (w : SimWorld)
    → Untouched sim (λ c. c) k c o.key w (sim_update k c o w).1
update_other k c o w = elim (updated_world k c o w) [
  | inl e ↦ subst (Untouched sim (λ c. c) k c o.key w) (sym e) (λ k' c' r' h. refl)
  | inr e ↦ subst (Untouched sim (λ c. c) k c o.key w) (sym e) (put_other k c o w)
]

Alike-refl : (o : Stored) → Alike sim o o
Alike-refl o = record {
  key_eq = refl;
  annotations_eq = refl;
  bool_eq = λ q. refl;
  string_eq = λ q. refl;
  int64_eq = λ q. refl;
  slice_eq = λ q. refl;
}

pub sim-ServerLaws : ServerLaws sim (λ c. c)
sim-ServerLaws = record {
  get_server = λ k c c' r w e. ap (λ x. sim_get k x r w) e;
  key-get = λ k c r w o h. key-with_key r (w.bodies k c r) o h;
  get-update = λ k c o o' w h.
      let (e, same) = accepted k c o o' w h in
      subst (λ x. sim_get k c o.key x.1 ≡ ok o') (sym e) (put_read k c o w ∙ ap ok same);
  update-Alike = λ k c o o' w h. subst (Alike sim o) (accepted k c o o' w h).1 (Alike-refl o);
  get-update_other = update_other;
  get-update_refused = λ k c o w e h. ground arith;
}
