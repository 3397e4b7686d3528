-- ===== src/Sim/Hub.antt =====
-- The hub of the concrete platform behaves as the laws say.
use cnpg_ha.Base.{String, Option, none, some, delete, arith, ◌≡◌, refl, sym, ap, subst, inl, inr}
use cnpg_ha.Base.Exec.{ok}
use cnpg_ha.Api.{HaCluster}
use cnpg_ha.Platform.{Kind, Ref}
use cnpg_ha.Platform.Laws.{SecretLaws, HubLaws, HubWriteLaws}
use cnpg_ha.Sim.{sim, Stored, SimWorld, sim_update, with_ref, or_not_found}
use cnpg_ha.Sim.Laws.{updated_world}

secrets_kept :
    (k : Kind) (c : String) (o : Stored) (w : SimWorld) → (sim_update k c o w).1.secrets ≡ w.secrets
secrets_kept k c o w = elim (updated_world k c o w) [
  | inl e ↦ ap (λ v. v.secrets) e
  | inr e ↦ ap (λ v. v.secrets) e
]

pub sim-SecretLaws : SecretLaws sim
sim-SecretLaws = record {
  secret-update = λ k c c' o r w. ap (λ f. or_not_found (f c' r)) (secrets_kept k c o w);
  secret-remove_annotation = λ key ha c r w. refl;
  secret-update_status = λ ha c r w. refl;
}

ok_inj : (a b : HaCluster) → ok a ≡ ok b → a ≡ b
ok_inj a b h = cc

-- An answer that is the HACluster, or differs from it in other fields.
answer_key :
    (r : Ref) (a b : HaCluster)
    → ok a ≡ ok b
    → (a.namespace ≡ r.namespace) × (a.name ≡ r.name)
    → (b.namespace ≡ r.namespace) × (b.name ≡ r.name)
answer_key r a b h at =
    subst (λ x. (x.namespace ≡ r.namespace) × (x.name ≡ r.name)) (ok_inj a b h) at

got_key :
    (r : Ref) (x : Option HaCluster) (ha : HaCluster)
    → or_not_found (with_ref r x) ≡ ok ha
    → (ha.namespace ≡ r.namespace) × (ha.name ≡ r.name)
got_key r none ha h = absurd (ground arith)
got_key r (some x) ha h =
    answer_key r (record x { namespace = r.namespace; name = r.name }) ha h (refl, refl)

abbrev ref_of : HaCluster → Ref
ref_of ha = record { namespace = ha.namespace; name = ha.name }

pub sim-HubLaws : HubLaws sim
sim-HubLaws = record {
  key-get_ha = λ key w ha h. got_key key (w.clusters key) ha h;
  key-remove_annotation = λ key ha ha' w h.
      answer_key (ref_of ha) (record ha { annotations = delete key ha.annotations }) ha' h
        (refl, refl);
  key-update_status = λ ha ha' w h. answer_key (ref_of ha) ha ha' h (refl, refl);
}

pub sim-HubWriteLaws : HubWriteLaws sim
sim-HubWriteLaws = record {
  get-remove_annotation = λ key ha k c r w. refl;
  get-update_status = λ ha k c r w. refl;
  spec-remove_annotation = λ key ha ha' w h.
      sym (ap (λ x. x.spec) (ok_inj (record ha { annotations = delete key ha.annotations }) ha' h));
  spec-update_status = λ ha ha' w h. sym (ap (λ x. x.spec) (ok_inj ha ha' h));
}
