-- ===== src/Headers/Parse/Line.antt =====
-- What header_parse.c reads from a header line that ends in CRLF.
use globus_dsi_rest.Base.{
  ℕ, suc, ◌+◌, ◌-◌, ◌^◌, ◌≤◌, ◌<◌, ◌≡◌, ◌≢◌, refl, ◌∙◌, ap, ap₂, Bool, true, false, inl, inr, [],
  ◌∷◌, ◌++◌, ◌==◌, append_assoc, Bytes, length, length-append, take, drop, take-append_length, none,
  some, size_mod, add_size, sub_size, arith, All, Bool-cases, ne→==, eq→==, lt→ltb,
}
use globus_dsi_rest.Base.Runs.{Run, done}
use globus_dsi_rest.KeyArray.{KeyValue, key_value, Pair}
use globus_dsi_rest.Headers.Parse.{
  HeaderArray, index_of, skip_space, cut_at, parse_entry, add_entry, Parsed, parse_line,
  header_parse, is_space,
}
use globus_dsi_rest.Headers.Parse.Room.{Fits, IsValid, make_room_lem}

pub index_of_lem :
    (c : ℕ) (s t : Bytes) → All (λ x. x ≢ c) s → index_of c (s ++ (c ∷ t)) ≡ some (length s)
unfolding index_of
index_of_lem c [] t h = rw (eq→== c c refl)
index_of_lem c (x ∷ s) t h = rw (ne→== x c h.0, index_of_lem c s t h.1)

pub cut_at_lem : (c : ℕ) (s t : Bytes) → All (λ x. x ≢ c) s → cut_at c (s ++ (c ∷ t)) ≡ s
unfolding cut_at
cut_at_lem c [] t h = rw (eq→== c c refl)
cut_at_lem c (x ∷ s) t h = rw (ne→== x c h.0, cut_at_lem c s t h.1)

-- `name: value` and CRLF.
abbrev pub line : Pair → Bytes
line p = p.0 ++ (b':' ∷ (b' ' ∷ (p.1 ++ (b'\r' ∷ (b'\n' ∷ [])))))

-- A name that is not empty and has no colon, and a value in one line, without white space in front.
pub record IsHeader (p : Pair) : Type 0 where
  pub named : p.0 ≢ []
  pub plain : All (λ c. c ≢ b':') p.0
  pub value : All (λ c. c ≢ b'\r') p.1
  pub trimmed : skip_space p.1 ≡ p.1

pub drop-append_suc : (s : Bytes) (c : ℕ) (t : Bytes) → drop (suc (length s)) (s ++ (c ∷ t)) ≡ t
drop-append_suc [] c t = refl
drop-append_suc (x ∷ s) c t = drop-append_suc s c t

length-skip_space : (s : Bytes) → length (skip_space s) ≤ length s
unfolding skip_space
length-skip_space [] = omega arith
length-skip_space (c ∷ s) = elim (Bool-cases (is_space c)) [
  | inl e ↦ rw e (omega (arith, length-skip_space s))
  | inr e ↦ rw e (omega (arith, length-skip_space s))
]

trimmed_head : (c : ℕ) (s : Bytes) → skip_space (c ∷ s) ≡ c ∷ s → is_space c ≡ false
unfolding skip_space
trimmed_head c s h = elim (Bool-cases (is_space c)) [
  | inl e ↦
      let h' : skip_space s ≡ c ∷ s = rw e at h in
      absurd (omega (arith, length-skip_space s, ap length h'))
  | inr e ↦ e
]

skip_space_lem :
    (c : ℕ) (s t : Bytes) → skip_space (c ∷ s) ≡ c ∷ s → skip_space ((c ∷ s) ++ t) ≡ (c ∷ s) ++ t
unfolding skip_space
skip_space_lem c s t h = rw (trimmed_head c s h)

abbrev pub crlf : Bytes → Bytes
crlf t = b'\r' ∷ (b'\n' ∷ t)

take-line : (s rest : Bytes) → take (suc (suc (length s))) (s ++ crlf rest) ≡ s ++ crlf []
take-line [] rest = refl
take-line (x ∷ s) rest = ap (λ t. x ∷ t) (take-line s rest)

-- When the value starts within the line, its bytes of the line are read up to a CR.
pub parse_entry_at :
    (alloc : ℕ → Bool) (buffer : Bytes) (size colon : ℕ) {v : Bytes}
    → ((n : ℕ) → alloc n ≡ true)
    → skip_space (drop (suc colon) buffer) ≡ v
    → length buffer - length v ≤ size
    → size + 1 < size_mod
    → parse_entry alloc buffer size colon
      ≡ done (
          key_value (take colon buffer) (cut_at b'\r' (take (size - (length buffer - length v)) v)))
unfolding parse_entry
parse_entry_at alloc buffer size colon {v} ok e inside small =
    let room : add_size (sub_size size (length buffer - length v)) 1
        ≡ suc (size - (length buffer - length v)) =
      omega arith in
    let n : ℕ = size - (length buffer - length v) in
    let last : suc n - 1 ≡ n = omega arith in
    rw (e, parse_entry)
      (rw (room, ok (suc colon), ok (suc n), lt→ltb 0 (suc n) (omega arith), last) refl)

-- The two strings that are read from a line, whatever lies behind the line in memory.
parse_entry_lem :
    (alloc : ℕ → Bool) (name value rest : Bytes)
    → All (λ c. c ≢ b'\r') value
    → skip_space value ≡ value
    → skip_space rest ≡ rest
    → ((n : ℕ) → alloc n ≡ true)
    → length name + length value + 5 < size_mod
    → parse_entry alloc
        (name ++ (b':' ∷ (b' ' ∷ (value ++ crlf rest))))
        (length name + length value + 4)
        (length name)
      ≡ done (key_value name value)
unfolding skip_space cut_at
parse_entry_lem alloc name [] rest a t r ok small =
    let buffer = name ++ (b':' ∷ (b' ' ∷ crlf rest)) in
    let v : skip_space (drop (suc (length name)) buffer) ≡ rest =
      ap skip_space (drop-append_suc name b':' (b' ' ∷ crlf rest)) ∙ r in
    let l : length buffer ≡ length name + suc (suc (suc (suc (length rest)))) =
      length-append name (b':' ∷ (b' ' ∷ crlf rest)) in
    let z : length name + 0 + 4 - (length buffer - length rest) ≡ 0 = omega (arith, l) in
    parse_entry_at alloc buffer (length name + 0 + 4) (length name) ok v (omega (arith, l))
      (omega arith)
    ∙ ap done (
        ap₂ key_value (take-append_length name (b':' ∷ (b' ' ∷ crlf rest)))
          (ap (λ k. cut_at b'\r' (take k rest)) z))
parse_entry_lem alloc name (c ∷ s) rest a t r ok small =
    let tail : Bytes = (c ∷ s) ++ crlf rest in
    let buffer = name ++ (b':' ∷ (b' ' ∷ tail)) in
    let v : skip_space (drop (suc (length name)) buffer) ≡ tail =
      ap skip_space (drop-append_suc name b':' (b' ' ∷ tail)) ∙ skip_space_lem c s (crlf rest) t in
    let l : length buffer ≡ length name + suc (suc (length tail)) =
      length-append name (b':' ∷ (b' ' ∷ tail)) in
    let lt : length tail ≡ length (c ∷ s) + suc (suc (length rest)) =
      length-append (c ∷ s) (crlf rest) in
    let z : length name + length (c ∷ s) + 4 - (length buffer - length tail)
        ≡ suc (suc (length (c ∷ s))) =
      omega (arith, l, lt) in
    parse_entry_at alloc buffer (length name + length (c ∷ s) + 4) (length name) ok v
      (omega (arith, l, lt)) (omega arith)
    ∙ ap done (
        ap₂ key_value (take-append_length name (b':' ∷ (b' ' ∷ tail))) (
          ap (λ k. cut_at b'\r' (take k tail)) z
          ∙ ap (cut_at b'\r') (take-line (c ∷ s) rest)
          ∙ cut_at_lem b'\r' (c ∷ s) (b'\n' ∷ []) a))

line-append :
    (p : Pair) (rest : Bytes) → line p ++ rest ≡ p.0 ++ (b':' ∷ (b' ' ∷ (p.1 ++ crlf rest)))
line-append p rest =
    append_assoc p.0 (b':' ∷ (b' ' ∷ (p.1 ++ crlf []))) rest
    ∙ ap (λ t. p.0 ++ (b':' ∷ (b' ' ∷ t))) (append_assoc p.1 (crlf []) rest)

pub length-line : (p : Pair) → length (line p) ≡ length p.0 + length p.1 + 4
length-line p =
    omega (arith, length-append p.0 (b':' ∷ (b' ' ∷ (p.1 ++ crlf []))), length-append p.1 (crlf []))

pub length-name : (s : Bytes) → s ≢ [] → 0 < length s
length-name [] h = absurd (h refl)
length-name (c ∷ s) h = omega arith

-- An array with one more element.
pub record Appends (h : HeaderArray) (p : Pair) (r : Run Parsed) : Type 0 where
  pub headers : HeaderArray
  pub returned : r ≡ done (record { result = none; headers = headers })
  pub entries : headers.entries ≡ h.entries ++ (key_value p.0 p.1 ∷ [])
  pub valid : IsValid headers

add_entry_lem :
    (kv : KeyValue) (h : HeaderArray) {c : ℕ}
    → h.capacity ≡ some c
    → length h.entries < c
    → add_entry kv h ≡ done (record h { entries = h.entries ++ (kv ∷ []) })
unfolding add_entry
add_entry_lem kv h {c} e lt = rw (e, add_entry) (rw (lt→ltb (length h.entries) c lt, e) refl)

-- When the allocations succeed, header_parse appends the name and the value of a line
-- `name: value` with CRLF to a valid array and leaves it valid, whatever lies in memory behind the
-- line, if that does not start with white space.
pub header_parse-Appends :
    (alloc : ℕ → Bool) (h : HeaderArray) (p : Pair) (rest : Bytes)
    → IsValid h
    → IsHeader p
    → skip_space rest ≡ rest
    → ((n : ℕ) → alloc n ≡ true)
    → length h.entries < 2 ^ 59
    → length (line p) + 1 < size_mod
    → Appends h p (header_parse alloc h (line p ++ rest) (length (line p)))
unfolding header_parse parse_line add_entry
header_parse-Appends alloc h p rest v ph r ok count small =
    let g = make_room_lem alloc h v count ok in
    let found : index_of b':' (take (length (line p)) (line p ++ rest)) ≡ some (length p.0) =
      ap (index_of b':') (take-append_length (line p) rest)
      ∙ index_of_lem b':' p.0 (b' ' ∷ (p.1 ++ crlf [])) ph.plain in
    let entry : parse_entry alloc (line p ++ rest) (length (line p)) (length p.0)
        ≡ done (key_value p.0 p.1) =
      ap₂ (λ b n. parse_entry alloc b n (length p.0)) (line-append p rest) (length-line p)
      ∙ parse_entry_lem alloc p.0 p.1 rest ph.value ph.trimmed r ok
          (omega (arith, length-line p)) in
    let pos : (length p.0 == 0) ≡ false =
      ne→== (length p.0) 0 (λ e. omega (arith, length-name p.0 ph.named)) in
    let fit : length g.grown.entries < g.free = omega (arith, ap length g.same, g.room) in
    let more : length (g.grown.entries ++ (key_value p.0 p.1 ∷ [])) ≤ g.free =
      omega (arith, fit, length-append g.grown.entries (key_value p.0 p.1 ∷ [])) in
    record {
      headers = record g.grown { entries = g.grown.entries ++ (key_value p.0 p.1 ∷ []) };
      returned =
          rw (g.made, header_parse)
            (rw (found, parse_line)
              (rw (pos, entry, add_entry_lem (key_value p.0 p.1) g.grown g.has fit) refl));
      entries = ap (λ t. t ++ (key_value p.0 p.1 ∷ [])) g.same;
      valid = rw (g.has, Fits) (more, g.chunked);
    }
