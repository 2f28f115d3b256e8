-- ===== src/Consent/Asked.antt =====
-- recommendation/consent.ts: which targets an intent to delete derived data is asked for.
use open_interest_clusters.Prelude.{
  String, ◌≡◌, inl, inr, Option, some, List, [], ◌∷◌, arith, Option-cases, none, ◌↔◌, ◌∙◌, sym, ap,
}
use open_interest_clusters.Prelude.Vocabulary.{
  Elem, member, name-member, includes_iff, unique, includes-unique,
}
use open_interest_clusters.Consent.Words.{
  DerivedDataTarget, derived_data_target_vocabulary, derived_data_target_name,
  derived_data_target_found, derived_data_targets,
}
use open_interest_clusters.Consent.Deletion.{known_targets, requested_targets}

derived_data_target_name_injective :
    (a b : DerivedDataTarget) → derived_data_target_name a ≡ derived_data_target_name b → a ≡ b
derived_data_target_name_injective a b h =
    cc (sym (derived_data_target_found a) ∙ ap member h ∙ derived_data_target_found b)

pub Elem-unique :
    (xs : List DerivedDataTarget) (t : DerivedDataTarget) → Elem t (unique xs) ↔ Elem t xs
Elem-unique xs t =
    ground (arith, includes_iff (unique xs) t, includes_iff xs t, includes-unique xs t)

-- The target is among those that are asked for: any target where none are named, else one whose name
-- is among the given texts.
abbrev pub IsAsked : Option (List String) → DerivedDataTarget → Type 0
IsAsked none t = Unit
IsAsked (some texts) t = Elem (derived_data_target_name t) texts

-- Every text that is given is the name of a target.
abbrev pub AreTargets : Option (List String) → Type 0
AreTargets none = Unit
AreTargets (some texts) =
    (text : String)
    → Elem text texts
    → (t : DerivedDataTarget) × (derived_data_target_name t ≡ text)

-- What asking for targets comes to.
abbrev pub Asks : Option (List String) → List DerivedDataTarget → Type 0
Asks targets asked =
    AreTargets targets × ((t : DerivedDataTarget) → Elem t asked ↔ IsAsked targets t)

known_targets-Asks :
    (texts : List String) (asked : List DerivedDataTarget)
    → known_targets texts ≡ some asked
    → Asks (some texts) asked
known_targets-Asks [] asked h = (λ text t. absurd t, λ t. ground arith)
known_targets-Asks (s ∷ ss) asked h = elim (Option-cases (member {E = DerivedDataTarget} s)) [
  | inl unknown ↦ ground arith
  | inr (k, known) ↦ elim (Option-cases (known_targets ss)) [
    | inl e ↦ ground arith
    | inr (ks, rest) ↦
        let named : derived_data_target_name k ≡ s = name-member s k known in
        let same : k ∷ ks ≡ asked = ground arith in
        let (all, iff) = known_targets-Asks ss ks rest in
        (
          λ text t. elim t [ inl here ↦ (k, named ∙ here) | inr there ↦ all text there ],
          rw (← same) (λ t. (
            λ m. elim m [
              | inl here ↦ inl (sym named ∙ ap derived_data_target_name here)
              | inr there ↦ inr ((iff t).0 there)
            ],
            λ m. elim m [
              | inl here ↦ inl (derived_data_target_name_injective k t (named ∙ here))
              | inr there ↦ inr ((iff t).1 there)
            ],
          )),
        )
  ]
]

every_target : (t : DerivedDataTarget) → Elem t derived_data_targets
every_target t = ground arith

pub requested_targets-Asks :
    (targets : Option (List String)) (asked : List DerivedDataTarget)
    → requested_targets targets ≡ some asked
    → Asks targets asked
requested_targets-Asks none asked h =
    let same : derived_data_targets ≡ asked = ground arith in
    (tt, rw (← same) (λ t. (λ m. tt, λ m. every_target t)))
requested_targets-Asks (some texts) asked h = known_targets-Asks texts asked h
