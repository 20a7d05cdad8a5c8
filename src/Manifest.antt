-- ===== src/Manifest.antt =====
-- internal/config/changeset.go and migration.go: the YAML manifests. The YAML library is a parameter:
-- `encode` is yaml.Marshal, and `decode` gives what its decoder returns at the two calls of Decode.
pub mod ChangeSets
pub mod Migrations
use telemetry_change_guard.Common.{
  ℕ, ◌≤◌, String, Bool, true, false, Option, none, some, List, ◌≡◌, refl, ◌↔◌, Result, ok, err, ltb,
  if◌then◌else◌, arith, Bool-cases, inl, inr,
}
use telemetry_change_guard.Config.{FieldError, bytes}

pub data ManifestError : Type 0 where
  too_large empty malformed several_documents trailing_data encoding_failed : ManifestError
  invalid : List FieldError → ManifestError

-- The first call finds the end of the text, an error or a document; after a document, the second call
-- finds the end, another document or an error.
pub data Decoding {ℓ} (D : Type ℓ) : Type ℓ where
  at_end broken : Decoding D
  only followed spoiled : D → Decoding D

abbrev pub max_manifest_bytes : ℕ
max_manifest_bytes = 1048576

module _ {ℓ} {D : Type ℓ} where
  abbrev pub one_document : Decoding D → Result ManifestError D
  one_document at_end = err empty
  one_document broken = err malformed
  one_document (only d) = ok d
  one_document (followed d) = err several_documents
  one_document (spoiled d) = err trailing_data

  -- The reading of a manifest, up to its single document.
  unfoldable pub read_document : (String → Decoding D) → String → Result ManifestError D
  read_document decode text =
      if ltb max_manifest_bytes (bytes text) then err too_large else one_document (decode text)

  one_document_iff : (c : Decoding D) (d : D) → (one_document c ≡ ok d) ↔ (c ≡ only d)
  one_document_iff at_end d = (λ h. cc h, λ h. cc h)
  one_document_iff broken d = (λ h. cc h, λ h. cc h)
  one_document_iff (only x) d = (λ h. cc h, λ h. cc h)
  one_document_iff (followed x) d = (λ h. cc h, λ h. cc h)
  one_document_iff (spoiled x) d = (λ h. cc h, λ h. cc h)

  pub read_document_iff :
      (decode : String → Decoding D) (text : String) (d : D)
      → (read_document decode text ≡ ok d)
        ↔ ((bytes text ≤ max_manifest_bytes) × (decode text ≡ only d))
  unfolding read_document
  read_document_iff decode text d = elim (Bool-cases (ltb max_manifest_bytes (bytes text))) [
    | inl large ↦ rw large (λ h. cc h, λ (n, _). ground (arith, large, n))
    | inr fits ↦ rw fits (
      λ h. (ground (arith, fits), (one_document_iff (decode text) d).0 h),
      λ (_, k). (one_document_iff (decode text) d).1 k,
    )
  ]
