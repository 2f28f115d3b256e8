-- ===== src/Ledger/Listing.antt =====
-- recommendation/signal-ledger.ts: what listActiveSignals returns, and in which order.
use Prim.Native.Nat.{Ordering}
use open_interest_clusters.Prelude.{
  ◌≡◌, ◌↔◌, inl, inr, arith, true, false, List, [], ◌∷◌, map, ok, >>=-eq-ok, Bool-cases, ensure,
  type_error, String, none, some, Option-cases, ◌⊎◌, ◌≢◌, refl,
}
use open_interest_clusters.Prelude.Int.{ℤ, ◌<ℤ◌, ltb_ℤ, eq_of_parts}
use open_interest_clusters.Prelude.Sort.{sort, IsChain, IsSorted-IsChain, sort-IsSorted, Elem-sort}
use open_interest_clusters.Prelude.Dict.{values}
use open_interest_clusters.Prelude.Vocabulary.{Elem}
use open_interest_clusters.Js.{Value, get, is_plain_record}
use open_interest_clusters.Js.Host.{Host, IsLocaleOrder}
use open_interest_clusters.Ledger.State.{ActiveEntry, Ledger}
use open_interest_clusters.Ledger.Batch.{
  ActiveView, clone_active, is_live, live, in_order, comes_first, read_time, list_active_signals,
}

module _ (host : Host) where
  comes_first_total :
      (a b : ActiveEntry host.Number)
      → IsLocaleOrder host
      → comes_first host a b ≡ false
      → comes_first host b a ≡ true
  unfolding comes_first in_order
  comes_first_total a b order h =
      ground (arith, order.swapped a.source_event_key b.source_event_key)

  differ :
      (now : ℤ) (e a : ActiveEntry host.Number)
      → is_live host now e ≡ false
      → is_live host now a ≡ true
      → e ≡ a
      → ⊥
  differ now e a off on same = cc

  Elem-live :
      (now : ℤ) (a : ActiveEntry host.Number) (es : List (ActiveEntry host.Number))
      → Elem a (live host now es) ↔ (Elem a es × (is_live host now a ≡ true))
  unfolding live
  Elem-live now a [] = (λ h. ground arith, λ h. h.0)
  Elem-live now a (e ∷ es) = elim (Bool-cases (is_live host now e)) [
    | inl on ↦ rw on (
      λ h. elim h [
        | inl same ↦ (inl same, rw same at on)
        | inr t ↦ let (there, lives) = (Elem-live now a es).0 t in (inr there, lives)
      ],
      λ h. elim h.0 [ inl same ↦ inl same | inr there ↦ inr ((Elem-live now a es).1 (there, h.1)) ],
    )
    | inr off ↦ rw off (
      λ h. let (there, lives) = (Elem-live now a es).0 h in (inr there, lives),
      λ h. elim h.0 [
        | inl same ↦ absurd (differ now e a off h.1 same)
        | inr there ↦ (Elem-live now a es).1 (there, h.1)
      ],
    )
  ]

  -- An entry has not expired: its signal has no expiry, or one that is a time after now.
  abbrev pub IsUnexpired : ℤ → ActiveEntry host.Number → Type 0
  IsUnexpired now e =
      (e.signal.expires_at ≡ none)
      ⊎ ((text : String) × (millis : ℤ) × (e.signal.expires_at ≡ some text)
          × (host.date_parse text ≡ some millis)
          × (now <ℤ millis))

  -- The event of an entry is earlier than that of another, or of the same time with a key that
  -- localeCompare does not place later.
  abbrev pub ComesBefore : ActiveEntry host.Number → ActiveEntry host.Number → Type 0
  ComesBefore a b =
      (a.occurred_at_millis <ℤ b.occurred_at_millis)
      ⊎ ((a.occurred_at_millis ≡ b.occurred_at_millis)
          × (host.locale_compare a.source_event_key b.source_event_key ≢ Ordering.gt))

  comes_first-ComesBefore :
      (a b : ActiveEntry host.Number) → comes_first host a b ≡ true → ComesBefore a b
  unfolding comes_first in_order
  comes_first-ComesBefore a b h =
      elim (Bool-cases (ltb_ℤ a.occurred_at_millis b.occurred_at_millis)) [
        | inl earlier ↦ inl (ground arith)
        | inr not_earlier ↦ elim (Bool-cases (ltb_ℤ b.occurred_at_millis a.occurred_at_millis)) [
          | inl later ↦ ground arith
          | inr neither ↦
              inr
                (eq_of_parts a.occurred_at_millis b.occurred_at_millis (ground arith), ground arith)
        ]
      ]

  is_live_iff :
      (now : ℤ) (e : ActiveEntry host.Number) → (is_live host now e ≡ true) ↔ IsUnexpired now e
  unfolding is_live
  is_live_iff now e = (sound, complete)
    where
      sound : is_live host now e ≡ true → IsUnexpired now e
      sound h = elim (Option-cases e.signal.expires_at) [
        | inl never ↦ inl never
        | inr (text, at) ↦ elim (Option-cases (host.date_parse text)) [
          | inl no_time ↦ ground arith
          | inr (millis, time) ↦ inr (text, millis, at, time, ground arith)
        ]
      ]

      complete : IsUnexpired now e → is_live host now e ≡ true
      complete (inl never) = rw never refl
      complete (inr (text, millis, at, time, later)) = ground arith

  -- Where localeCompare changes its sign when its texts are swapped, a read that throws nothing
  -- lists views of the active entries that have no expiry or one after the time of the read, of all of
  -- them and of no other, by the time of their events, and by the keys of their source events where
  -- the times are the same.
  pub list_active_signals-IsSorted :
      (clock : ℤ) (options : Value host.Number) (l : Ledger host.Number)
      (views : List (ActiveView host.Number))
      → IsLocaleOrder host
      → list_active_signals host clock options l ≡ ok views
      → (now : ℤ) × (entries : List (ActiveEntry host.Number)) × (read_time host clock
            (get options "now")
          ≡ ok now)
        × (views ≡ map clone_active entries)
        × IsChain ComesBefore entries
        × ((e : ActiveEntry host.Number)
            → Elem e entries ↔ (Elem e (values l.active) × IsUnexpired now e))
  unfolding list_active_signals
  list_active_signals-IsSorted clock options l views order h =
      let (u, plain, next) =
        >>=-eq-ok
          (ensure (is_plain_record options)
            (type_error "Invalid recommendation signal ledger read options."))
          _ h in
      let (now, time, done) = >>=-eq-ok (read_time host clock (get options "now")) _ next in
      let entries = live host now (values l.active) in
      (
        now,
        sort (comes_first host) entries,
        time,
        cc,
        IsSorted-IsChain (comes_first host) ComesBefore comes_first-ComesBefore
            (sort (comes_first host) entries)
            (sort-IsSorted (comes_first host) entries (λ a b. comes_first_total a b order)),
        λ e. (
          λ t.
              let (there, lives) =
                (Elem-live now e (values l.active)).0
                  ((Elem-sort (comes_first host) e entries).0 t) in
              (there, (is_live_iff now e).0 lives),
          λ t.
              (Elem-sort (comes_first host) e entries).1
                ((Elem-live now e (values l.active)).1 (t.0, (is_live_iff now e).1 t.1)),
        ),
      )
