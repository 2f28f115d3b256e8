-- ===== src/Ledger/Canonical.antt =====
-- recommendation/signal-ledger.ts: stableStringify, the canonical text that a digest is taken of.
use Prim.Native.String
use open_interest_clusters.Prelude.{
  String, true, false, List, [], ◌∷◌, if◌then◌else◌, type_error, Result, ok, throw, ◌>>=◌,
}
use open_interest_clusters.Js.{
  Value, Items, Fields, undefined, null, bool, num, str, arr, obj, nil, cons, end, field,
}
use open_interest_clusters.Js.Host.{Host}
use open_interest_clusters.Js.Json.{json_text, text_at_most}

-- A property with the text of its value, which may have thrown.
abbrev Entry : Type 0
Entry = String × Result String

-- `Object.keys(value).sort()`, on the properties with their texts
insert_sorted : Entry → List Entry → List Entry
insert_sorted e [] = e ∷ []
insert_sorted (k, t) ((j, u) ∷ es) =
    if text_at_most k j then (k, t) ∷ (j, u) ∷ es else (j, u) ∷ insert_sorted (k, t) es

sort_entries : List Entry → List Entry
sort_entries [] = []
sort_entries (e ∷ es) = insert_sorted e (sort_entries es)

-- `parts.join(",")`
joined : List String → String
joined [] = ""
joined (t ∷ []) = t
joined (t ∷ u ∷ ts) = String.◌++◌ t (String.◌++◌ "," (joined (u ∷ ts)))

entry_texts : List Entry → Result (List String)
entry_texts [] = ok []
entry_texts ((k, r) ∷ es) =
    r >>= λ t. entry_texts es >>= λ ts. ok (String.◌++◌ (json_text k) (String.◌++◌ ":" t) ∷ ts)

abbrev in_brackets : String → String → String → Result String
in_brackets left text right = ok (String.◌++◌ left (String.◌++◌ text right))

module _ (host : Host) where
  unfoldable mutual
    unfolding insert_sorted sort_entries joined entry_texts

    pub stable_stringify : Value host.Number → Result String
    stable_stringify null = ok "null"
    stable_stringify (str s) = ok (json_text s)
    stable_stringify (bool true) = ok "true"
    stable_stringify (bool false) = ok "false"
    stable_stringify (num x) =
        if host.is_finite x
        then ok (host.number_text x)
        else throw (type_error "Cannot canonicalize non-finite signal ledger value.")
    stable_stringify (arr xs) = stringify_items xs >>= λ ts. in_brackets "[" (joined ts) "]"
    stable_stringify (obj fs) =
        entry_texts (sort_entries (stringify_fields fs)) >>= λ ts. in_brackets "{" (joined ts) "}"
    stable_stringify _ = throw (type_error "Cannot canonicalize unsupported signal ledger value.")

    pub stringify_items : Items host.Number → Result (List String)
    stringify_items nil = ok []
    stringify_items (cons v vs) =
        stable_stringify v >>= λ t. stringify_items vs >>= λ ts. ok (t ∷ ts)

    -- `keys.filter((key) => value[key] !== undefined)`
    pub stringify_fields : Fields host.Number → List Entry
    stringify_fields end = []
    stringify_fields (field k undefined fs) = stringify_fields fs
    stringify_fields (field k v fs) = (k, stable_stringify v) ∷ stringify_fields fs
