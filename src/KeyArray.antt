-- ===== src/KeyArray.antt =====
-- `globus_dsi_rest_key_value_t` and `globus_dsi_rest_key_array_t` of globus_dsi_rest.h.
use mathlib.Core.Option
use globus_dsi_rest.Base.{Option, none, some, List, [], ◌∷◌, ◌≡◌, refl, Bytes}

-- A null pointer is `none`.
pub record KeyValue : Type 0 where
  pub key : Option Bytes
  pub value : Option Bytes

abbrev pub KeyArray : Type 0
KeyArray = List KeyValue

abbrev pub key_value : Bytes → Bytes → KeyValue
key_value k v = record { key = some k; value = some v }

abbrev pub Pair : Type 0
Pair = Bytes × Bytes

-- `key != NULL && value != NULL`, with the two strings.
unfoldable pub present : KeyValue → Option Pair
present kv = elim kv.key [ none ↦ none | some k ↦ Option.map (λ v. (k, v)) kv.value ]

-- The entries that are not placeholders.
unfoldable pub pairs : KeyArray → List Pair
pairs [] = []
pairs (kv ∷ kvs) = elim (present kv) [ none ↦ pairs kvs | some p ↦ p ∷ pairs kvs ]

pub pairs-none : (kv : KeyValue) (kvs : KeyArray) → present kv ≡ none → pairs (kv ∷ kvs) ≡ pairs kvs
unfolding pairs
pairs-none kv kvs e = rw (e, pairs)

pub pairs-some :
    (kv : KeyValue) (kvs : KeyArray) (p : Pair)
    → present kv ≡ some p
    → pairs (kv ∷ kvs) ≡ p ∷ pairs kvs
unfolding pairs
pairs-some kv kvs p e = rw (e, pairs)

pub pairs_nil : pairs [] ≡ []
unfolding pairs
pairs_nil = refl
