-- ===== src/Signals/Words.antt =====
-- The vocabularies of recommendation/interest-signal.ts, and of recommendation/source-adapter.ts
-- what a signal's evidence names. Privacy boundaries are the processing boundaries of
-- recommendation/storage-authority.ts: the two arrays hold the same texts.
use open_interest_clusters.Prelude.{String, ◌≡◌, refl, List, [], ◌∷◌, some}
use open_interest_clusters.Prelude.Vocabulary.{Vocabulary, find}

pub data TargetKind : Type 0 where
  canonical_interest hashtag entity keyword domain creator collection moderation_label : TargetKind

abbrev pub target_kind_name : TargetKind → String
target_kind_name canonical_interest = "canonical_interest"
target_kind_name hashtag = "hashtag"
target_kind_name entity = "entity"
target_kind_name keyword = "keyword"
target_kind_name domain = "domain"
target_kind_name creator = "creator"
target_kind_name collection = "collection"
target_kind_name moderation_label = "moderation_label"

abbrev pub target_kinds : List TargetKind
target_kinds =
    canonical_interest ∷ hashtag ∷ entity ∷ keyword ∷ domain ∷ creator ∷ collection
    ∷ moderation_label ∷ []

pub target_kind_found :
    (e : TargetKind) → find target_kind_name target_kinds (target_kind_name e) ≡ some e
target_kind_found canonical_interest = refl
target_kind_found hashtag = refl
target_kind_found entity = refl
target_kind_found keyword = refl
target_kind_found domain = refl
target_kind_found creator = refl
target_kind_found collection = refl
target_kind_found moderation_label = refl

instance abbrev pub target_kind_vocabulary : Vocabulary TargetKind
target_kind_vocabulary = record {
  name = target_kind_name;
  members = target_kinds;
  found = target_kind_found;
}

pub data Action : Type 0 where
  view dwell click search_action like : Action
  reply repost quote follow save : Action
  share select dismiss hide block : Action
  mute label : Action

abbrev pub action_name : Action → String
action_name view = "view"
action_name dwell = "dwell"
action_name click = "click"
action_name search_action = "search"
action_name like = "like"
action_name reply = "reply"
action_name repost = "repost"
action_name quote = "quote"
action_name follow = "follow"
action_name save = "save"
action_name share = "share"
action_name select = "select"
action_name dismiss = "dismiss"
action_name hide = "hide"
action_name block = "block"
action_name mute = "mute"
action_name label = "label"

abbrev pub actions : List Action
actions =
    view ∷ dwell ∷ click ∷ search_action ∷ like ∷ reply ∷ repost ∷ quote ∷ follow ∷ save ∷ share
    ∷ select ∷ dismiss ∷ hide ∷ block ∷ mute ∷ label ∷ []

pub action_found : (e : Action) → find action_name actions (action_name e) ≡ some e
action_found view = refl
action_found dwell = refl
action_found click = refl
action_found search_action = refl
action_found like = refl
action_found reply = refl
action_found repost = refl
action_found quote = refl
action_found follow = refl
action_found save = refl
action_found share = refl
action_found select = refl
action_found dismiss = refl
action_found hide = refl
action_found block = refl
action_found mute = refl
action_found label = refl

instance abbrev pub action_vocabulary : Vocabulary Action
action_vocabulary = record { name = action_name; members = actions; found = action_found }

pub data Polarity : Type 0 where
  positive negative neutral : Polarity

abbrev pub polarity_name : Polarity → String
polarity_name positive = "positive"
polarity_name negative = "negative"
polarity_name neutral = "neutral"

abbrev pub polarities : List Polarity
polarities = positive ∷ negative ∷ neutral ∷ []

pub polarity_found : (e : Polarity) → find polarity_name polarities (polarity_name e) ≡ some e
polarity_found positive = refl
polarity_found negative = refl
polarity_found neutral = refl

instance abbrev pub polarity_vocabulary : Vocabulary Polarity
polarity_vocabulary = record { name = polarity_name; members = polarities; found = polarity_found }

pub data SourceItemKind : Type 0 where
  post profile tag collection reaction follow block mute label : SourceItemKind

abbrev pub source_item_kind_name : SourceItemKind → String
source_item_kind_name post = "post"
source_item_kind_name profile = "profile"
source_item_kind_name tag = "tag"
source_item_kind_name collection = "collection"
source_item_kind_name reaction = "reaction"
source_item_kind_name follow = "follow"
source_item_kind_name block = "block"
source_item_kind_name mute = "mute"
source_item_kind_name label = "label"

abbrev pub source_item_kinds : List SourceItemKind
source_item_kinds =
    post ∷ profile ∷ tag ∷ collection ∷ reaction ∷ follow ∷ block ∷ mute ∷ label ∷ []

pub source_item_kind_found :
    (e : SourceItemKind)
    → find source_item_kind_name source_item_kinds (source_item_kind_name e) ≡ some e
source_item_kind_found post = refl
source_item_kind_found profile = refl
source_item_kind_found tag = refl
source_item_kind_found collection = refl
source_item_kind_found reaction = refl
source_item_kind_found follow = refl
source_item_kind_found block = refl
source_item_kind_found mute = refl
source_item_kind_found label = refl

instance abbrev pub source_item_kind_vocabulary : Vocabulary SourceItemKind
source_item_kind_vocabulary = record {
  name = source_item_kind_name;
  members = source_item_kinds;
  found = source_item_kind_found;
}

pub data TrustBoundary : Type 0 where
  user_owned same_provider remote_provider third_party unknown : TrustBoundary

abbrev pub trust_boundary_name : TrustBoundary → String
trust_boundary_name user_owned = "user_owned"
trust_boundary_name same_provider = "same_provider"
trust_boundary_name remote_provider = "remote_provider"
trust_boundary_name third_party = "third_party"
trust_boundary_name unknown = "unknown"

abbrev pub trust_boundaries : List TrustBoundary
trust_boundaries = user_owned ∷ same_provider ∷ remote_provider ∷ third_party ∷ unknown ∷ []

pub trust_boundary_found :
    (e : TrustBoundary) → find trust_boundary_name trust_boundaries (trust_boundary_name e) ≡ some e
trust_boundary_found user_owned = refl
trust_boundary_found same_provider = refl
trust_boundary_found remote_provider = refl
trust_boundary_found third_party = refl
trust_boundary_found unknown = refl

instance abbrev pub trust_boundary_vocabulary : Vocabulary TrustBoundary
trust_boundary_vocabulary = record {
  name = trust_boundary_name;
  members = trust_boundaries;
  found = trust_boundary_found;
}
