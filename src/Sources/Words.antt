-- ===== src/Sources/Words.antt =====
-- recommendation/source-adapter.ts: what an adapter can do.
use open_interest_clusters.Prelude.{String, ◌≡◌, refl, List, [], ◌∷◌, some}
use open_interest_clusters.Prelude.Vocabulary.{Vocabulary, find}

pub data Capability : Type 0 where
  read_public read_private_with_authorization read_relationships read_moderation_signals
        supports_incremental_sync :
      Capability
  supports_deletion_events : Capability

abbrev pub capability_name : Capability → String
capability_name read_public = "read_public"
capability_name read_private_with_authorization = "read_private_with_authorization"
capability_name read_relationships = "read_relationships"
capability_name read_moderation_signals = "read_moderation_signals"
capability_name supports_incremental_sync = "supports_incremental_sync"
capability_name supports_deletion_events = "supports_deletion_events"

abbrev pub capabilities : List Capability
capabilities =
    read_public ∷ read_private_with_authorization ∷ read_relationships ∷ read_moderation_signals
    ∷ supports_incremental_sync ∷ supports_deletion_events ∷ []

pub capability_found :
    (e : Capability) → find capability_name capabilities (capability_name e) ≡ some e
capability_found read_public = refl
capability_found read_private_with_authorization = refl
capability_found read_relationships = refl
capability_found read_moderation_signals = refl
capability_found supports_incremental_sync = refl
capability_found supports_deletion_events = refl

instance abbrev pub capability_vocabulary : Vocabulary Capability
capability_vocabulary = record {
  name = capability_name;
  members = capabilities;
  found = capability_found;
}
