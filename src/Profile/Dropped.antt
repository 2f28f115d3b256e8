-- ===== src/Profile/Dropped.antt =====
-- recommendation/profile-store.ts, trimSortedEntries: what is left of a profile.
use open_interest_clusters.Prelude.{
  ◌+◌, ◌-◌, String, ◌≡◌, refl, sym, ◌∙◌, arith, [], ◌∷◌, none, some, length, drop, leb, Bool-cases,
  inl, inr, if◌then◌else◌,
}
use open_interest_clusters.Prelude.Sort.{sort, length-sort}
use open_interest_clusters.Prelude.Dict.{
  length-delete, Dict, IsDict, lookup, delete, has, lookup-delete, delete-IsDict,
}
use open_interest_clusters.Js.Host.{Host}
use open_interest_clusters.Profile.Entry.{Entry}
use open_interest_clusters.Profile.Store.{
  State, Settings, drop_records, trim_entries, sort_records, record_first,
}
use open_interest_clusters.Prelude.Each.{delete-IsEach}
use open_interest_clusters.Profile.Totals.{total, total-delete}
use open_interest_clusters.Prelude.Cut.{
  IsIn, IsIn-self, IsIn-delete, lookup-sort, sort-IsDict, drop-IsDict, lookup-take, length-drop,
  lookup-drop-some, take-IsDict,
}
use open_interest_clusters.Profile.Trim.{total-sort, total-take-drop}
use open_interest_clusters.Profile.Invariant.{IsEntry, IsFilled, IsProfile}

-- The state without one entry
without : {N : Type 0} → String → Entry N → State N → State N
without key e s = record s {
  signal_count = s.signal_count - e.signal_count;
  entries = delete key s.entries;
}

module _ {N : Type 0} where
  length-drop_records :
      (records : Dict (Entry N)) (s : State N)
      → IsDict s.entries
      → IsDict records
      → IsIn s.entries records
      → length (drop_records records s).entries + length records ≡ length s.entries
  unfolding drop_records without
  length-drop_records [] s d k i = omega arith
  length-drop_records ((key, e) ∷ records) s d k i =
      let next : length (drop_records records (without key e s)).entries + length records
          ≡ length (delete key s.entries) =
        length-drop_records records (without key e s) (delete-IsDict key s.entries d) k.1
          (IsIn-delete key s.entries records d k.0 i.1) in
      omega (arith, next, length-delete key e s.entries i.0)

  lookup-drop_records :
      (at : String) (records : Dict (Entry N)) (s : State N)
      → IsDict s.entries
      → lookup at (drop_records records s).entries
        ≡ (if has at records then none else lookup at s.entries)
  unfolding drop_records without has lookup
  lookup-drop_records at [] s d = refl
  lookup-drop_records at ((key, e) ∷ records) s d = ground (
    arith,
    lookup-drop_records at records (without key e s) (delete-IsDict key s.entries d),
    lookup-delete key at s.entries d,
  )

  total-drop_records :
      (records : Dict (Entry N)) (s : State N)
      → IsDict s.entries
      → IsDict records
      → IsIn s.entries records
      → total (drop_records records s).entries + total records ≡ total s.entries
  unfolding drop_records without
  total-drop_records [] s d k i = omega arith
  total-drop_records ((key, e) ∷ records) s d k i =
      let next : total (drop_records records (without key e s)).entries + total records
          ≡ total (delete key s.entries) =
        total-drop_records records (without key e s) (delete-IsDict key s.entries d) k.1
          (IsIn-delete key s.entries records d k.0 i.1) in
      omega (arith, next, total-delete key e s.entries i.0)

module _ (host : Host) where
  without-IsFilled :
      (c : Settings) (key : String) (e : Entry host.Number) (s : State host.Number)
      → IsFilled host c s
      → lookup key s.entries ≡ some e
      → IsFilled host c (without key e s)
  unfolding without
  without-IsFilled c key e s h found = record {
    dict = delete-IsDict key s.entries h.dict;
    each = delete-IsEach (IsEntry host c) key s.entries h.each;
    summed = omega (arith, total-delete key e s.entries found, h.summed);
    updated = h.updated;
  }

  drop_records-IsFilled :
      (c : Settings) (records : Dict (Entry host.Number)) (s : State host.Number)
      → IsFilled host c s
      → IsDict records
      → IsIn s.entries records
      → IsFilled host c (drop_records records s)
  unfolding drop_records without
  drop_records-IsFilled c [] s h k i = h
  drop_records-IsFilled c ((key, e) ∷ records) s h k i =
      drop_records-IsFilled c records (without key e s) (without-IsFilled c key e s h i.0) k.1
        (IsIn-delete key s.entries records h.dict k.0 i.1)

  -- The entries that are past the limit, in the order of the sort
  abbrev pub past : Settings → State host.Number → Dict (Entry host.Number)
  past c s = drop c.max_entries (sort_records host s.entries)

  past-IsDict : (c : Settings) (s : State host.Number) → IsDict s.entries → IsDict (past c s)
  unfolding sort_records
  past-IsDict c s d =
      drop-IsDict c.max_entries (sort (record_first host) s.entries)
        (sort-IsDict (record_first host) s.entries d)

  past-IsIn : (c : Settings) (s : State host.Number) → IsDict s.entries → IsIn s.entries (past c s)
  unfolding sort_records
  past-IsIn c s d = IsIn-self s.entries (past c s) (past-IsDict c s d) (λ key e found.
      sym (lookup-sort (record_first host) key s.entries d)
      ∙ lookup-drop-some key e c.max_entries (sort (record_first host) s.entries)
          (sort-IsDict (record_first host) s.entries d) found)

  -- What trimSortedEntries leaves
  abbrev pub trimmed : Settings → State host.Number → State host.Number × Dict (Entry host.Number)
  trimmed c s = trim_entries (sort_records host s.entries) c.max_entries s

  pub trimmed-IsProfile :
      (c : Settings) (s : State host.Number) → IsFilled host c s → IsProfile host c (trimmed c s).0
  unfolding trim_entries sort_records
  trimmed-IsProfile c s h =
      elim (Bool-cases (leb (length (sort (record_first host) s.entries)) c.max_entries)) [
        | inl fits ↦ rw fits (record {
          filled = h;
          bounded = ground (arith, length-sort (record_first host) s.entries);
        })
        | inr more ↦ rw more (record {
          filled =
              drop_records-IsFilled c (past c s) s h (past-IsDict c s h.dict)
                (past-IsIn c s h.dict);
          bounded = ground (
            arith,
            length-sort (record_first host) s.entries,
            length-drop c.max_entries (sort (record_first host) s.entries),
            length-drop_records (past c s) s h.dict (past-IsDict c s h.dict) (past-IsIn c s h.dict),
          );
        })
      ]

  pub lookup-trimmed :
      (c : Settings) (s : State host.Number) (key : String)
      → IsFilled host c s
      → lookup key (trimmed c s).1 ≡ lookup key (trimmed c s).0.entries
  unfolding trim_entries sort_records
  lookup-trimmed c s key h =
      elim (Bool-cases (leb (length (sort (record_first host) s.entries)) c.max_entries)) [
        | inl fits ↦ rw fits (lookup-sort (record_first host) key s.entries h.dict)
        | inr more ↦
            rw
              (
                more,
                lookup-drop_records key (past c s) s h.dict,
                lookup-take key c.max_entries (sort (record_first host) s.entries)
                    (sort-IsDict (record_first host) s.entries h.dict),
                lookup-sort (record_first host) key s.entries h.dict,
              )
              refl
      ]

  pub lookup-trimmed_before :
      (c : Settings) (s : State host.Number) (key : String) (e : Entry host.Number)
      → IsFilled host c s
      → lookup key (trimmed c s).0.entries ≡ some e
      → lookup key s.entries ≡ some e
  unfolding trim_entries
  lookup-trimmed_before c s key e h found =
      elim (Bool-cases (leb (length (sort_records host s.entries)) c.max_entries)) [
        | inl fits ↦ rw fits at found
        | inr more ↦ ground (arith, lookup-drop_records key (past c s) s h.dict, found)
      ]

  pub trimmed-IsDict :
      (c : Settings) (s : State host.Number) → IsFilled host c s → IsDict (trimmed c s).1
  unfolding trim_entries sort_records
  trimmed-IsDict c s h =
      elim (Bool-cases (leb (length (sort (record_first host) s.entries)) c.max_entries)) [
        | inl fits ↦ rw fits (sort-IsDict (record_first host) s.entries h.dict)
        | inr more ↦ rw more (
            take-IsDict c.max_entries (sort (record_first host) s.entries)
              (sort-IsDict (record_first host) s.entries h.dict))
      ]

  pub total-trimmed :
      (c : Settings) (s : State host.Number)
      → IsFilled host c s
      → total (trimmed c s).1 ≡ total (trimmed c s).0.entries
  unfolding trim_entries sort_records
  total-trimmed c s h =
      elim (Bool-cases (leb (length (sort (record_first host) s.entries)) c.max_entries)) [
        | inl fits ↦ rw fits (total-sort (record_first host) s.entries)
        | inr more ↦ rw more (
            omega (
              arith,
              total-drop_records (past c s) s h.dict (past-IsDict c s h.dict)
                  (past-IsIn c s h.dict),
              total-take-drop c.max_entries (sort (record_first host) s.entries),
              total-sort (record_first host) s.entries,
            ))
      ]
