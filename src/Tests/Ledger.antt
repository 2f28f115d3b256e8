-- ===== src/Tests/Ledger.antt =====
-- Runs of recommendation/signal-ledger.ts.
use open_interest_clusters.Prelude.{
  ℕ, ◌≡◌, refl, true, List, [], ◌∷◌, none, length, Result, ok, throw, Failure, ◌⊎◌,
}
use open_interest_clusters.Prelude.Sort.{IsChain, place, sort}
use open_interest_clusters.Prelude.Dict.{lookup}
use open_interest_clusters.Js.{Value, Items, nil, cons, arr, str, items, is_plain_record}
use open_interest_clusters.Js.Text.{has_unsafe_control_character, is_not_blank, utf16_length}
use open_interest_clusters.Js.Narrow.{known}
use open_interest_clusters.Js.Json.{text_at_most}
use open_interest_clusters.Ledger.Canonical.{stable_stringify}
use open_interest_clusters.Ledger.Event.{
  normalize_event, normalize_effect, digest_of, bounded_string, is_bounded_text, timestamp,
}
use open_interest_clusters.Ledger.State.{
  Ledger, Settings, IngestResult, retracted, duplicate, ingest, ingest_event, ingest_effect,
  ingest_retract, counted, stored, empty_ledger,
}
use open_interest_clusters.Ledger.Invariant.{IsLedger}
use open_interest_clusters.Ledger.Laws.{ingest-IsLedger, empty_ledger-IsLedger}
use open_interest_clusters.Ledger.Replay.{ingest_again}
use open_interest_clusters.Ledger.Retraction.{retracted-inactive}
use open_interest_clusters.Ledger.Batch.{BatchResult, batch_result, ingest_all, ingest_batch}
use open_interest_clusters.Ledger.Tally.{Tally}
use open_interest_clusters.Ledger.BatchLaws.{
  ingest_all-Leads, Ingests, IsStopped, ingest_batch-Ingests, ingest_batch-counts,
}
use open_interest_clusters.Prelude.{◌↔◌, true, map}
use open_interest_clusters.Prelude.Int.{ℤ, pos}
use open_interest_clusters.Prelude.Dict.{values}
use open_interest_clusters.Prelude.Vocabulary.{Elem}
use open_interest_clusters.Js.{get}
use open_interest_clusters.Ledger.State.{ActiveEntry}
use open_interest_clusters.Ledger.Batch.{
  ActiveView, clone_active, list_active_signals, live, is_live, read_time,
}
use open_interest_clusters.Ledger.Listing.{ComesBefore, IsUnexpired, list_active_signals-IsSorted}
use open_interest_clusters.Tests.Samples.{whole_numbers, whole_numbers-IsLocaleOrder, object}
use open_interest_clusters.Tests.Signals.{written_like, own_like}

-- The separator of the key material is a control character.
nul_separator : has_unsafe_control_character "\0" ≡ true
unfolding has_unsafe_control_character
nul_separator = refl

abbrev settings : Settings
settings = record { namespace = "test"; salt = ""; max_operations = 10 }

abbrev start : Ledger ℕ
start = empty_ledger whole_numbers

abbrev retract_like : Value ℕ
retract_like = object (
    ("operation", str "retract")
    ∷ ("operationId", str "op-1")
    ∷ ("sourceEventId", str "ev-2")
    ∷ ("occurredAt", str "2026-01-02")
    ∷ ("retractsSourceEventId", str "ev-1")
    ∷ ("reason", str "source_deleted")
    ∷ [])

abbrev apply_like : Value ℕ
apply_like = object (
    ("operation", str "apply")
    ∷ ("operationId", str "op-2")
    ∷ ("sourceEventId", str "ev-1")
    ∷ ("occurredAt", str "2026-01-01")
    ∷ ("signal", written_like)
    ∷ [])

abbrev outcome :
    IngestResult × Ledger ℕ → Result (IngestResult × Ledger ℕ) → IngestResult × Ledger ℕ
outcome fallback (ok x) = x
outcome fallback (throw failure) = fallback

abbrev no_result : IngestResult
no_result = record {
  decision = duplicate;
  operation_key = "";
  source_event_key = "";
  active_signal_count = 0;
  tombstone_count = 0;
}

abbrev after_retract : IngestResult × Ledger ℕ
after_retract = outcome (no_result, start) (ingest whole_numbers settings retract_like start)

running : Unit {0}
unfolding ingest normalize_event is_plain_record known bounded_string is_bounded_text is_not_blank
    utf16_length has_unsafe_control_character timestamp normalize_effect digest_of stable_stringify
    text_at_most ingest_event lookup ingest_effect ingest_retract counted stored
running = tt

retract_runs : ingest whole_numbers settings retract_like start ≡ ok after_retract
unfolding running
retract_runs = refl

ingest-IsLedger_example : IsLedger settings after_retract.1
ingest-IsLedger_example =
    ingest-IsLedger whole_numbers settings retract_like start after_retract.0 after_retract.1
      (empty_ledger-IsLedger whole_numbers settings) retract_runs

ingest_again_example :
    ingest whole_numbers settings retract_like after_retract.1
    ≡ ok (record (after_retract.0) { decision = duplicate }, after_retract.1)
ingest_again_example =
    ingest_again whole_numbers settings retract_like start after_retract.0 after_retract.1
      retract_runs

-- The retraction, and its event's own apply after it.
abbrev later : List (Value ℕ)
later = apply_like ∷ retract_like ∷ []

abbrev end : Ledger ℕ
end = (ingest_all whole_numbers settings later after_retract.1).1

retracted_first : after_retract.0.decision ≡ retracted
unfolding running
retracted_first = refl

retracted-inactive_example : lookup (after_retract.0.source_event_key) end.active ≡ none
retracted-inactive_example =
    retracted-inactive whole_numbers settings retract_like start after_retract.0 after_retract.1 end
      (empty_ledger-IsLedger whole_numbers settings) retract_runs retracted_first
      (ingest_all-Leads whole_numbers settings later after_retract.1)

-- A batch whose second event is no event: the first one stays ingested.
abbrev broken_batch : Items ℕ
broken_batch = cons retract_like (cons (str "no event") nil)

abbrev broken_end : Ledger ℕ
broken_end = (ingest_batch whole_numbers settings (arr broken_batch) start).1

ingest_batch-Ingests_example :
    IsLedger settings broken_end
    × (((b : BatchResult) × ((ingest_batch whole_numbers settings (arr broken_batch) start).0
            ≡ ok b)
          × Ingests whole_numbers settings (items broken_batch) start b.results broken_end)
        ⊎ ((f : Failure) × ((ingest_batch whole_numbers settings (arr broken_batch) start).0
              ≡ throw f)
            × IsStopped whole_numbers settings (items broken_batch) start broken_end f))
ingest_batch-Ingests_example =
    ingest_batch-Ingests whole_numbers settings broken_batch start
      (empty_ledger-IsLedger whole_numbers settings)

abbrev one_event : Items ℕ
one_event = cons retract_like nil

abbrev counted_batch : BatchResult
counted_batch = batch_result whole_numbers after_retract.1 (after_retract.0 ∷ [])

batch_runs :
    ingest_batch whole_numbers settings (arr one_event) start ≡ (ok counted_batch, after_retract.1)
unfolding ingest_batch ingest_all running
batch_runs = refl

ingest_batch-counts_example :
    (length counted_batch.results ≡ length (items one_event))
    × Tally counted_batch.results counted_batch.applied_count counted_batch.retracted_count
        counted_batch.duplicate_count counted_batch.suppressed_count
    × (counted_batch.active_signal_count ≡ length after_retract.1.active)
    × (counted_batch.tombstone_count ≡ length after_retract.1.tombstones)
ingest_batch-counts_example =
    ingest_batch-counts whole_numbers settings one_event start counted_batch after_retract.1
      batch_runs

abbrev read_options : Value ℕ
read_options = object (("now", str "2026-01-03") ∷ [])

abbrev one_like : Ledger ℕ
one_like = record start {
  active =
      (
        "key",
        record {
          source_event_key = "key";
          operation_key = "operation";
          occurred_at = "2026-01-01";
          occurred_at_millis = pos 1;
          signal = own_like;
        },
      )
      ∷ [];
}

abbrev one_view : List (ActiveView ℕ)
one_view =
    record {
      source_event_key = "key";
      operation_key = "operation";
      occurred_at = "2026-01-01";
      signal = own_like;
    }
    ∷ []

list_active_signals-IsSorted_example :
    (now : ℤ) × (entries : List (ActiveEntry ℕ)) × (read_time whole_numbers
        (pos 0)
        (get read_options "now")
      ≡ ok now)
    × (one_view ≡ map clone_active entries)
    × IsChain (ComesBefore whole_numbers) entries
    × ((e : ActiveEntry ℕ)
        → Elem e entries ↔ (Elem e (values one_like.active) × IsUnexpired whole_numbers now e))
unfolding list_active_signals sort place live is_live running
list_active_signals-IsSorted_example =
    list_active_signals-IsSorted whole_numbers (pos 0) read_options one_like one_view
      whole_numbers-IsLocaleOrder refl
