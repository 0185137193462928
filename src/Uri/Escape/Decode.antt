-- ===== src/Uri/Escape/Decode.antt =====
-- The decoder of test/uri-decode.c, and that it undoes uri_escape.c.
use mathlib.Core.Option
use globus_dsi_rest.Base.{
  ℕ, ◌+◌, ◌-◌, ◌*◌, ◌/◌, ◌%◌, ◌<◌, ◌≡◌, refl, ◌∙◌, ap, Bool, true, false, inl, inr, [], ◌∷◌, ◌++◌,
  leb, ◌==◌, if◌then◌else◌, Bytes, length, Option, some, none, arith, Bool-cases, holds_below,
  holds_below-elem, All, ok, size_mod, ==→eq, ◌&&◌, ◌||◌,
}
use globus_dsi_rest.Uri.Escape.{is_unreserved, uri_escape}
use globus_dsi_rest.Uri.Escape.Encode.{
  encode_char, encode, hex_digit, uri_escape_lem, IsEncoded, encode-IsEncoded,
}

abbrev pub is_xdigit : ℕ → Bool
is_xdigit c = (leb b'0' c && leb c b'9') || (leb b'a' c && leb c b'f') || (leb b'A' c && leb c b'F')

-- The table `unhex`.
abbrev pub unhex : ℕ → ℕ
unhex c = if leb c b'9' then c - b'0' else if leb b'a' c then c - b'a' + 10 else c - b'A' + 10

-- Where the reading pointer stands: outside an escape, behind its `%`, or behind its first digit.
pub data Place : Type 0 where
  plain first : Place
  second : ℕ → Place

-- The loop of `uri_decode`; the end of the list is the final NUL. `none` is GLOBUS_FAILURE.
pub decode_from : Place → Bytes → Option Bytes
decode_from plain [] = some []
decode_from first [] = none
decode_from (second h) [] = none
decode_from plain (c ∷ s) = elim (c == b'%') [
  | true ↦ decode_from first s
  | false ↦ Option.map (λ r. (if c == b'+' then b' ' else c) ∷ r) (decode_from plain s)
]
decode_from first (c ∷ s) = elim (is_xdigit c) [
  | true ↦ decode_from (second (unhex c * 16)) s
  | false ↦ none
]
decode_from (second h) (c ∷ s) = elim (is_xdigit c) [
  | true ↦ Option.map (λ r. (h + unhex c) ∷ r) (decode_from plain s)
  | false ↦ none
]

pub uri_decode : Bytes → Option Bytes
unfolding decode_from
uri_decode = decode_from plain

hex_table : holds_below (λ n. is_xdigit (hex_digit n) && unhex (hex_digit n) == n) 16 ≡ true
unfolding holds_below
hex_table = refl

hex_digit_xdigit : (n : ℕ) → n < 16 → is_xdigit (hex_digit n) ≡ true
hex_digit_xdigit n h = ground (
  arith,
  holds_below-elem (λ n. is_xdigit (hex_digit n) && unhex (hex_digit n) == n) 16 n h hex_table,
)

unhex-hex_digit : (n : ℕ) → n < 16 → unhex (hex_digit n) ≡ n
unhex-hex_digit n h = ground (
  arith,
  holds_below-elem (λ n. is_xdigit (hex_digit n) && unhex (hex_digit n) == n) 16 n h hex_table,
)

unreserved_plain : (c : ℕ) → is_unreserved c ≡ true → ((c == b'%') ≡ false) × ((c == b'+') ≡ false)
unreserved_plain c h = ground arith

decode_escape :
    (c : ℕ) (r : Bytes)
    → c < 256
    → decode_from plain (b'%' ∷ hex_digit (c / 16 % 16) ∷ hex_digit (c % 16) ∷ r)
      ≡ Option.map (λ t. c ∷ t) (decode_from plain r)
unfolding decode_from
decode_escape c r h =
    let hi = c / 16 % 16 in
    let lo = c % 16 in
    rw
      (
        decode_from,
        hex_digit_xdigit hi (omega arith),
        hex_digit_xdigit lo (omega arith),
        unhex-hex_digit hi (omega arith),
        unhex-hex_digit lo (omega arith),
      )
      (ap (λ (v : ℕ). Option.map (λ (t : Bytes). v ∷ t) (decode_from plain r)) (omega arith))

decode-encode_char :
    (c : ℕ) (r : Bytes)
    → c < 256
    → decode_from plain (encode_char c ++ r) ≡ Option.map (λ t. c ∷ t) (decode_from plain r)
unfolding decode_from encode_char
decode-encode_char c r h = elim (Bool-cases (is_unreserved c)) [
  | inl u ↦ let p = unreserved_plain c u in rw (u, decode_from) (rw (p.0, p.1))
  | inr v ↦
      rw (v, decode_from)
        (elim (Bool-cases (c == b' ')) [
          | inl e ↦ rw e (rw (==→eq c b' ' e))
          | inr n ↦ rw n (decode_escape c r h)
        ])
]

pub decode-encode : (s : Bytes) → All (λ c. c < 256) s → uri_decode (encode s) ≡ some s
unfolding uri_decode encode
decode-encode [] h = refl
decode-encode (c ∷ s) h =
    decode-encode_char c (encode s) h.0 ∙ ap (λ o. Option.map (λ t. c ∷ t) o) (decode-encode s h.1)

-- When the size of the allocation is in range and it succeeds, `globus_dsi_rest_uri_escape`
-- succeeds: its result has only unreserved characters, `+` and `%`, and decodes to the given bytes.
pub uri_escape-decode :
    (alloc : ℕ → Bool) (s : Bytes)
    → length s * 3 + 1 < size_mod
    → alloc (length s * 3 + 1) ≡ true
    → All (λ c. c < 256) s
    → (e : Bytes) × (uri_escape alloc s ≡ ok e) × IsEncoded e × (uri_decode e ≡ some s)
uri_escape-decode alloc s small got h =
    (encode s, uri_escape_lem alloc s small got, encode-IsEncoded s, decode-encode s h)
