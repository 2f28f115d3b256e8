-- ===== src/Storage/Laws.antt =====
-- Normalized manifests and the arguments that the evaluation builds from them.
use open_interest_clusters.Prelude.{true, ◌≡◌, refl, List, [], ◌∷◌, some, arith, ok}
use open_interest_clusters.Js.{Value, str, is_object, is_plain_record}
use open_interest_clusters.Js.Narrow.{known, all_known, known-name}
use open_interest_clusters.Storage.Authority.{
  StorageAuthority, storage_authority_name, ProcessingBoundary, processing_boundary_name,
  storage_authority_vocabulary, processing_boundary_vocabulary, authority_verdict,
  evaluate_storage_authority,
}
use open_interest_clusters.Storage.Placement.{
  StateDomain, state_domain_name, state_domain_vocabulary, PersistenceMode, persistence_mode_name,
  persistence_mode_vocabulary, Manifest, subject_level, is_adapter_id, are_domains,
  validate_adapter_id, normalize_manifest,
}
use open_interest_clusters.Storage.Evaluate.{domain_items, manifest_value, authority_input}

module _ (N : Type 0) where
  known-authority : (e : StorageAuthority) → known {N = N} (str (storage_authority_name e)) ≡ some e
  known-authority e = known-name N e

  known-boundary :
      (e : ProcessingBoundary) → known {N = N} (str (processing_boundary_name e)) ≡ some e
  known-boundary e = known-name N e

  known-persistence : (e : PersistenceMode) → known {N = N} (str (persistence_mode_name e)) ≡ some e
  known-persistence e = known-name N e

  pub known-domain : (e : StateDomain) → known {N = N} (str (state_domain_name e)) ≡ some e
  known-domain e = known-name N e

  all_known-domain_items : (ds : List StateDomain) → all_known {N = N} (domain_items ds) ≡ some ds
  unfolding all_known
  all_known-domain_items [] = refl
  all_known-domain_items (d ∷ ds) = rw (known-domain d, all_known-domain_items ds)

  normalize-manifest_value :
      (m : Manifest)
      → are_domains m.domains ≡ true
      → is_adapter_id m.adapter_id ≡ true
      → normalize_manifest (manifest_value {N = N} m) ≡ ok m
  unfolding normalize_manifest manifest_value is_plain_record validate_adapter_id
  normalize-manifest_value m h k = rw (
    all_known-domain_items m.domains,
    h,
    known-authority m.authority,
    known-boundary m.processing_boundary,
    known-persistence m.persistence,
    k,
  )

  pub evaluate_authority-input :
      (m : Manifest) (d : StateDomain)
      → evaluate_storage_authority (authority_input {N = N} m d)
        ≡ ok (authority_verdict m.processing_boundary m.authority (subject_level d))
  unfolding evaluate_storage_authority is_object
  evaluate_authority-input m d =
      rw (known-authority m.authority, known-boundary m.processing_boundary) (ground arith)

module _ {N : Type 0} where
  normalize-checks :
      (v : Value N) (m : Manifest)
      → normalize_manifest v ≡ ok m
      → (are_domains m.domains ≡ true) × (is_adapter_id m.adapter_id ≡ true)
  unfolding normalize_manifest validate_adapter_id
  normalize-checks v m h = ground arith

  -- A normalized manifest, taken as the value that it is, normalizes to itself.
  pub normalize_manifest_idem :
      (v : Value N) (m : Manifest)
      → normalize_manifest v ≡ ok m
      → normalize_manifest (manifest_value {N = N} m) ≡ ok m
  normalize_manifest_idem v m h =
      let (domains, id) = normalize-checks v m h in normalize-manifest_value N m domains id
