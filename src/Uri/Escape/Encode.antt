-- ===== src/Uri/Escape/Encode.antt =====
-- What uri_escape.c appends for a string, and that it stays inside the memory it is given.
use globus_dsi_rest.Base.{
  ℕ, ◌+◌, ◌-◌, ◌*◌, ◌/◌, ◌%◌, ◌≤◌, ◌<◌, ◌≡◌, refl, sym, ◌∙◌, ap₂, ◌>>=◌, Bool, true, inl, inr, [],
  ◌∷◌, ◌++◌, append_assoc, append-nil, ◌==◌, if◌then◌else◌, Bytes, length, length-append, get_or,
  ok, arith, Bool-cases, All, All-append, holds_below, holds_below-elem, ◌||◌, lt→ltb, size_mod,
  add_size,
}
use globus_dsi_rest.Uri.Escape.{
  is_unreserved, encoding_table, Cursor, put, escape_char, escape, uri_escape,
}

abbrev pub hex_digit : ℕ → ℕ
hex_digit n = get_or encoding_table n 0

-- The encoding of one character.
unfoldable pub encode_char : ℕ → Bytes
encode_char c =
    if is_unreserved c
    then c ∷ []
    else if c == b' '
    then b'+' ∷ []
    else b'%' ∷ hex_digit (c / 16 % 16) ∷ hex_digit (c % 16) ∷ []

unfoldable pub encode : Bytes → Bytes
encode [] = []
encode (c ∷ s) = encode_char c ++ encode s

abbrev pub cursor : Bytes → ℕ → Cursor
cursor w a = record { written = w; available = a }

pub length-encode_char : (c : ℕ) → length (encode_char c) ≤ 3
unfolding encode_char
length-encode_char c = elim (Bool-cases (is_unreserved c)) [
  | inl u ↦ rw u (omega arith)
  | inr r ↦
      rw r
        (elim (Bool-cases (c == b' ')) [ inl e ↦ rw e (omega arith) | inr n ↦ rw n (omega arith) ])
]

pub length-encode : (s : Bytes) → length (encode s) ≤ 3 * length s
unfolding encode
length-encode [] = omega arith
length-encode (c ∷ s) =
    omega (arith, length-append (encode_char c) (encode s), length-encode_char c, length-encode s)

pub put_lem :
    (c : ℕ) (w : Bytes) (a : ℕ) → 0 < a → put c (cursor w a) ≡ ok (cursor (w ++ (c ∷ [])) (a - 1))
unfolding put
put_lem c w a h = rw (lt→ltb 0 a h)

put_three :
    (x y z : ℕ) (w : Bytes) (a : ℕ)
    → 3 ≤ a
    → (put x (cursor w a) >>= λ o₁. put y o₁ >>= λ o₂. put z o₂)
      ≡ ok (cursor (w ++ (x ∷ y ∷ z ∷ [])) (a - 3))
put_three x y z w a h =
    rw
      (
        put_lem x w a (omega arith),
        put_lem y (w ++ (x ∷ [])) (a - 1) (omega arith),
        put_lem z ((w ++ (x ∷ [])) ++ (y ∷ [])) (a - 1 - 1) (omega arith),
      )
      (ap₂ (λ u b. ok (cursor u b)) (simp append_assoc) (omega arith))

-- Three free bytes are enough for a round of the loop.
escape_char_lem :
    (c : ℕ) (w : Bytes) (a : ℕ)
    → 3 ≤ a
    → escape_char c (cursor w a) ≡ ok (cursor (w ++ encode_char c) (a - length (encode_char c)))
unfolding escape_char encode_char
escape_char_lem c w a h = elim (Bool-cases (is_unreserved c)) [
  | inl u ↦ rw u (put_lem c w a (omega arith))
  | inr r ↦ rw r (elim (Bool-cases (c == b' ')) [
    | inl e ↦ rw e (put_lem b'+' w a (omega arith))
    | inr n ↦ rw n (put_three b'%' (hex_digit (c / 16 % 16)) (hex_digit (c % 16)) w a h)
  ])
]

-- With three bytes for each character the loop fails no assertion, and appends the encoding.
pub escape_lem :
    (s w : Bytes) (a : ℕ)
    → 3 * length s ≤ a
    → escape s (cursor w a) ≡ ok (cursor (w ++ encode s) (a - length (encode s)))
unfolding escape encode
escape_lem [] w a h = ap₂ (λ u b. ok (cursor u b)) (sym (append-nil w)) (omega arith)
escape_lem (c ∷ s) w a h = rw (escape_char_lem c w a (omega arith)) (
    escape_lem s (w ++ encode_char c) (a - length (encode_char c))
      (omega (arith, length-encode_char c))
    ∙ ap₂ (λ u b. ok (cursor u b)) (append_assoc w (encode_char c) (encode s))
        (omega (arith, length-append (encode_char c) (encode s))))

pub uri_escape_lem :
    (alloc : ℕ → Bool) (s : Bytes)
    → length s * 3 + 1 < size_mod
    → alloc (length s * 3 + 1) ≡ true
    → uri_escape alloc s ≡ ok (encode s)
unfolding uri_escape
uri_escape_lem alloc s small got =
    let e : add_size (length s * 3) 1 ≡ length s * 3 + 1 = omega arith in
    rw (e, got, escape_lem s [] (length s * 3 + 1) (omega arith))
      (rw (lt→ltb 0 (length s * 3 + 1 - length (encode s)) (omega (arith, length-encode s))))

-- What an encoding is made of: nothing that delimits a query or a form.
abbrev pub is_query_char : ℕ → Bool
is_query_char c = is_unreserved c || c == b'+' || c == b'%'

abbrev pub IsEncoded : Bytes → Type 0
IsEncoded = All (λ c. is_query_char c ≡ true)

digit_table : holds_below (λ n. is_unreserved (hex_digit n)) 16 ≡ true
unfolding holds_below
digit_table = refl

encode_char-IsEncoded : (c : ℕ) → IsEncoded (encode_char c)
unfolding encode_char
encode_char-IsEncoded c = elim (Bool-cases (is_unreserved c)) [
  | inl u ↦ rw u (ground arith, tt)
  | inr r ↦ rw r (elim (Bool-cases (c == b' ')) [
    | inl e ↦ rw e (refl, tt)
    | inr n ↦ rw n (refl, (digit (c / 16 % 16) (omega arith), (digit (c % 16) (omega arith), tt)))
  ])
]
  where
    digit : (n : ℕ) → n < 16 → is_query_char (hex_digit n) ≡ true
    digit n h =
        ground (arith, holds_below-elem (λ n. is_unreserved (hex_digit n)) 16 n h digit_table)

pub encode-IsEncoded : (s : Bytes) → IsEncoded (encode s)
unfolding encode
encode-IsEncoded [] = tt
encode-IsEncoded (c ∷ s) =
    All-append (λ c. is_query_char c ≡ true) (encode_char c) (encode s) (encode_char-IsEncoded c)
      (encode-IsEncoded s)
