-- ===== src/Consent/Revocation.antt =====
-- What marking a policy for deletion does to later evaluations, when granting more allows more, and
-- what a deletion intent names.
use open_interest_clusters.Prelude.{
  String, true, ◌≡◌, ◌≢◌, inl, inr, refl, Option, some, List, [], ◌∷◌, arith, Option-cases, ok,
  ◌>>=◌, ◌↔◌,
}
use open_interest_clusters.Prelude.Vocabulary.{Elem, unique, IsUnique, unique-IsUnique}
use open_interest_clusters.Js.{Value, str, obj, is_object, read-put}
use open_interest_clusters.Js.Text.{is_not_blank}
use open_interest_clusters.Consent.Words.{
  DataUse, DerivedDataTarget, derived_data_target_vocabulary, allow, deny,
}
use open_interest_clusters.Consent.Request.{Policy, Request, valid_policy}
use open_interest_clusters.Consent.Evaluate.{is_set, evaluate}
use open_interest_clusters.Consent.Permits.{Permits, Grants}
use open_interest_clusters.Consent.Decisions.{evaluate-allow_iff}
use open_interest_clusters.Consent.Deletion.{
  DeletionIntent, spread, mark_for_deletion, create_deletion_intent, requested_targets, non_empty,
}
use open_interest_clusters.Consent.Asked.{IsAsked, AreTargets, Elem-unique, requested_targets-Asks}

module _ {N : Type 0} where
  -- A valid policy stays valid when the deletion time is set, and changes in this field only.
  valid_policy-spread :
      (policy : Value N) (at : String) (p : Policy)
      → valid_policy policy ≡ some p
      → valid_policy (spread policy "deleteDerivedDataRequestedAt" (str at))
        ≡ some (record p { delete_derived_data_requested_at = some at })
  unfolding valid_policy spread is_object
  valid_policy-spread (obj fs) at p h = simp read-put (ground arith)
  valid_policy-spread _ at p h = ground arith

  deny_of_deleted :
      (policy request : Value N) (p : Policy)
      → valid_policy policy ≡ some p
      → is_set p.delete_derived_data_requested_at ≡ true
      → (evaluate policy request).decision ≡ deny
  deny_of_deleted policy request p valid set =
      ground (arith, λ (h : (evaluate policy request).decision ≡ allow). refute h)
    where
      refute : (evaluate policy request).decision ≡ allow → ⊥
      refute h =
          let (q, r, same, ok_request, permits) = (evaluate-allow_iff policy request).0 h in
          ground (arith, permits.not_deleted)

  mark_inverse :
      (policy requested_at : Value N) {marked : Value N}
      → mark_for_deletion policy requested_at ≡ ok marked
      → (p : Policy) × (at : String) × (valid_policy policy ≡ some p)
        × (requested_at ≡ str at)
        × (is_not_blank at ≡ true)
        × (marked ≡ spread policy "deleteDerivedDataRequestedAt" (str at))
  unfolding mark_for_deletion
  mark_inverse policy (str at) h = elim (Option-cases (valid_policy policy)) [
    | inl e ↦ ground arith
    | inr (p, e) ↦ (p, at, e, refl, ground arith, ground arith)
  ]
  mark_inverse policy _ h = ground arith

  -- A marked policy is the given one but for the time of the deletion request, which is the given
  -- text, and it is denied every request, whatever it allowed before.
  pub mark-deny :
      (policy requested_at marked : Value N)
      → mark_for_deletion policy requested_at ≡ ok marked
      → ((p : Policy) × (at : String) × (valid_policy policy ≡ some p)
          × (requested_at ≡ str at)
          × (valid_policy marked ≡ some (record p { delete_derived_data_requested_at = some at })))
        × ((request : Value N) → (evaluate marked request).decision ≡ deny)
  mark-deny policy requested_at marked h =
      let (p, at, valid, is_text, set, shape) = mark_inverse policy requested_at h in
      let valid' : valid_policy marked
          ≡ some (record p { delete_derived_data_requested_at = some at }) =
        rw shape (valid_policy-spread policy at p valid) in
      (
        (p, at, valid, is_text, valid'),
        λ request.
            deny_of_deleted marked request (record p { delete_derived_data_requested_at = some at })
              valid' set,
      )

-- `q` grants at least what `p` grants, and is set, revoked and marked as `p` is.
pub record Extends (p q : Policy) : Type 0 where
  pub subject : p.subject_id ≡ q.subject_id
  pub revoked : p.revoked_at ≡ q.revoked_at
  pub deleted : p.delete_derived_data_requested_at ≡ q.delete_derived_data_requested_at
  pub uses : (u : DataUse) → Elem u p.allowed_data_uses → Elem u q.allowed_data_uses
  pub server_side :
      (u : DataUse) → Grants p.server_side_data_uses u → Grants q.server_side_data_uses u
  pub private_use : (u : DataUse) → Grants p.private_data_uses u → Grants q.private_data_uses u
  pub third_party :
      (u : DataUse)
      → Grants p.third_party_private_data_uses u
      → Grants q.third_party_private_data_uses u

Permits-mono : (p q : Policy) (r : Request) → Extends p q → Permits p r → Permits q r
Permits-mono p q r more h = record {
  protocol = h.protocol;
  subject = ground arith;
  not_revoked = rw (← more.revoked) h.not_revoked;
  not_deleted = rw (← more.deleted) h.not_deleted;
  use_allowed = more.uses r.data_use h.use_allowed;
  server_side = elim h.server_side [ inl a ↦ inl a | inr g ↦ inr (more.server_side r.data_use g) ];
  provider = h.provider;
  access = h.access;
  private_use = elim h.private_use [ inl a ↦ inl a | inr g ↦ inr (more.private_use r.data_use g) ];
  third_party = elim h.third_party [
    | inl a ↦ inl a
    | inr (inl b) ↦ inr (inl b)
    | inr (inr g) ↦ inr (inr (more.third_party r.data_use g))
  ];
}

-- Of two well-formed policies of the same subject that are revoked and marked for deletion alike,
-- one that grants at least as much allows every request that the other allows: granting a use never
-- turns an allow into a deny.
pub evaluate_mono :
    {N : Type 0} (policy policy' request : Value N) (p q : Policy)
    → valid_policy policy ≡ some p
    → valid_policy policy' ≡ some q
    → Extends p q
    → (evaluate policy request).decision ≡ allow
    → (evaluate policy' request).decision ≡ allow
evaluate_mono policy policy' request p q hp hq more h =
    let (p', r, same, ok_request, permits) = (evaluate-allow_iff policy request).0 h in
    let same_policy : p' ≡ p = cc in
    (evaluate-allow_iff policy' request).1
      (q, r, hq, ok_request, Permits-mono p q r more (rw same_policy at permits))

intent_parts :
    (subject at : String) (kept : List DerivedDataTarget) (intent : DeletionIntent)
    → (non_empty kept >>= λ ts.
        ok (record { subject_id = subject; requested_at = at; targets = ts }))
      ≡ ok intent
    → (intent.subject_id ≡ subject)
      × (intent.requested_at ≡ at)
      × (intent.targets ≡ kept)
      × (intent.targets ≢ [])
intent_parts subject at [] intent h = cc
intent_parts subject at (t ∷ ts) intent h = ground arith

-- An intent names the subject and the time as given, and at least one target, none twice. Where no
-- targets are given it names every target; else each given text is the name of a target, and the
-- intent names exactly those.
pub create_deletion_intent_targets :
    {N : Type 0} (subject_id requested_at : Value N) (targets : Option (List String))
    (intent : DeletionIntent)
    → create_deletion_intent subject_id requested_at targets ≡ ok intent
    → (subject_id ≡ str intent.subject_id)
      × (requested_at ≡ str intent.requested_at)
      × (intent.targets ≢ [])
      × IsUnique intent.targets
      × AreTargets targets
      × ((t : DerivedDataTarget) → Elem t intent.targets ↔ IsAsked targets t)
unfolding create_deletion_intent
create_deletion_intent_targets (str s) (str at) targets intent h =
    elim (Option-cases (requested_targets targets)) [
      | inl e ↦ ground arith
      | inr (asked, e) ↦
          let (subject, time, same, some_left) =
            intent_parts s at (unique asked) intent (ground arith) in
          let (named, iff) = requested_targets-Asks targets asked e in
          (
            ground arith,
            ground arith,
            some_left,
            rw same (unique-IsUnique asked),
            named,
            rw same (λ t. (
              λ m. (iff t).0 ((Elem-unique asked t).0 m),
              λ m. (Elem-unique asked t).1 ((iff t).1 m),
            )),
          )
    ]
create_deletion_intent_targets _ _ targets intent h = ground arith
