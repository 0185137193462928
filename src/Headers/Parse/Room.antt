-- ===== src/Headers/Parse/Room.antt =====
-- The memory of the array that header_parse.c appends to.
use globus_dsi_rest.Base.{
  ℕ, ◌+◌, ◌*◌, ◌/◌, ◌%◌, ◌^◌, ◌≤◌, ◌<◌, ◌≡◌, ◌≢◌, refl, Bool, true, false, inl, inr, ◌==◌, length,
  Option, none, some, size_mod, arith, Bool-cases, Option-cases, lt→ltb, ==→ne, ==→eq, ◌⊎◌,
}
use globus_dsi_rest.Headers.Parse.{HeaderArray, must_grow, make_room, chunk, entry_size}

abbrev pub Fits : ℕ → Option ℕ → Type 0
Fits count none = count ≡ 0
Fits count (some c) = (count ≤ c) × (c % chunk ≡ 0)

-- The elements lie in the memory, which holds whole chunks.
abbrev pub IsValid : HeaderArray → Type 0
IsValid h = Fits (length h.entries) h.capacity

-- An array with the same elements and room for one more.
pub record Roomy (h : HeaderArray) (o : Option HeaderArray) : Type 0 where
  pub grown : HeaderArray
  pub made : o ≡ some grown
  pub same : grown.entries ≡ h.entries
  pub free : ℕ
  pub has : grown.capacity ≡ some free
  pub room : length h.entries < free
  pub chunked : free % chunk ≡ 0

-- The test is true when the last chunk is full, and false when there is room in it.
must_grow_lem :
    (h : HeaderArray)
    → IsValid h
    → ((must_grow h ≡ true) × (length h.entries % chunk ≡ 0))
      ⊎ ((must_grow h ≡ false)
          × ((c : ℕ) × (h.capacity ≡ some c) × (length h.entries < c) × (c % chunk ≡ 0)))
unfolding must_grow
must_grow_lem h v = elim (Option-cases h.capacity) [
  | inl e ↦
      let n : length h.entries ≡ 0 = rw e at v in inl (rw (e, must_grow) refl, omega (arith, n))
  | inr (c, e) ↦
      let w : (length h.entries ≤ c) × (c % chunk ≡ 0) = rw e at v in
      elim (Bool-cases (length h.entries % chunk == 0)) [
        | inl z ↦ inl (rw (e, must_grow) (ground (arith, z)), ==→eq (length h.entries % chunk) 0 z)
        | inr z ↦
            let z' : length h.entries % chunk ≢ 0 = ==→ne (length h.entries % chunk) 0 z in
            let pos : 0 < length h.entries = omega (arith, z') in
            inr (
              rw (e, must_grow) (rw (z, lt→ltb 0 (length h.entries) pos) refl),
              (c, e, omega (arith, z', w.0, w.1), w.1),
            )
      ]
]

pub make_room_lem :
    (alloc : ℕ → Bool) (h : HeaderArray)
    → IsValid h
    → length h.entries < 2 ^ 59
    → ((n : ℕ) → alloc n ≡ true)
    → Roomy h (make_room alloc h)
unfolding make_room
make_room_lem alloc h v small ok = elim (must_grow_lem h v) [
  | inl (g, full) ↦
      let s : (length h.entries + chunk) * entry_size % size_mod / entry_size
          ≡ length h.entries + chunk =
        omega arith in
      rw (g, make_room)
        (rw (ok, s)
          (record {
            grown = record h { capacity = some (length h.entries + chunk) };
            made = refl;
            same = refl;
            free = length h.entries + chunk;
            has = refl;
            room = omega arith;
            chunked = omega arith;
          }))
  | inr (g, (c, e, lt, ch)) ↦
      rw (g, make_room)
        (record { grown = h; made = refl; same = refl; free = c; has = e; room = lt; chunked = ch })
]
