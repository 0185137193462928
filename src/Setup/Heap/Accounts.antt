-- ===== src/Setup/Heap/Accounts.antt =====
-- Which blocks are owned: every block of the heap has been freed once or is held once.
use globus_dsi_rest.Base.{
  ℕ, ◌+◌, ◌≡◌, refl, Bool, true, List, [], ◌∷◌, ltb, ◌==◌, if◌then◌else◌, arith,
}
use globus_dsi_rest.Base.Runs.{Run, done}
use globus_dsi_rest.Setup.Heap.{
  Pointer, null, block, Heap, M, pure, stop, lift, ◌>>=◌, ◌>>◌, malloc, must_malloc, free, realloc,
}

-- How often a pointer is one to the block `p`.
abbrev pub at : Pointer → ℕ → ℕ
at null p = 0
at (block n) p = if n == p then 1 else 0

unfoldable pub count : ℕ → List ℕ → ℕ
count p [] = 0
count p (n ∷ ns) = (if n == p then 1 else 0) + count p ns

-- With `held` telling how often each block is held: the blocks that were allocated have been freed
-- or are held, once in all, and no others.
abbrev pub Accounts : (ℕ → ℕ) → Heap → Type 0
Accounts held h = (p : ℕ) → held p + count p h.freed ≡ (if ltb p h.next then 1 else 0)

-- An execution ends with a value and a heap that meet a condition.
pub record Ends {A : Type 0} (Post : A → Heap → Type 0) (r : Run (A × Heap)) : Type 0 where
  pub value : A
  pub heap : Heap
  pub returned : r ≡ done (value, heap)
  pub post : Post value heap

module _ {A : Type 0} where
  pub Ends-pure :
      {Post : A → Heap → Type 0} → (a : A) (h : Heap) → Post a h → Ends Post (done (a, h))
  Ends-pure a h p = record { value = a; heap = h; returned = refl; post = p }

  pub Ends-bind :
      {B : Type 0} {P : A → Heap → Type 0} {Q : B → Heap → Type 0}
      → (m : M A) (f : A → M B) (h : Heap) → Ends P (m h)
      → ((a : A) (h' : Heap) → P a h' → Ends Q (f a h'))
      → Ends Q ((m >>= f) h)
  unfolding ◌>>=◌
  Ends-bind m f h e next =
      let n = next e.value e.heap e.post in
      record {
        value = n.value;
        heap = n.heap;
        returned = rw (e.returned, ◌>>=◌) n.returned;
        post = n.post;
      }

-- Every allocation succeeds.
abbrev pub Plenty : (ℕ → Bool) → Type 0
Plenty grants = (n : ℕ) → grants n ≡ true

-- A new block comes to what is held.
abbrev pub Allocated : (ℕ → ℕ) → Pointer → Heap → Type 0
Allocated held a h = (n : ℕ) × (a ≡ block n) × Accounts (λ p. held p + at (block n) p) h

-- What follows an allocation.
subst-Allocated :
    {B : Type 0} {Q : B → Heap → Type 0} (held : ℕ → ℕ) (f : Pointer → M B) (x : Pointer) (h : Heap)
    → Allocated held x h
    → ((n : ℕ) (h' : Heap) → Accounts (λ p. held p + at (block n) p) h' → Ends Q (f (block n) h'))
    → Ends Q (f x h)
subst-Allocated held f x h q next = rw q.1 (next q.0 h q.2)

pub allocate :
    (held : ℕ → ℕ) (h : Heap)
    → Accounts held h
    → Accounts (λ p. held p + at (block h.next) p) (record h { next = h.next + 1 })
allocate held h a = λ p. more p (a p)
  where
    more :
        (p : ℕ)
        → held p + count p h.freed ≡ (if ltb p h.next then 1 else 0)
        → held p + at (block h.next) p + count p h.freed ≡ (if ltb p (h.next + 1) then 1 else 0)
    more p e = ground arith

module _ (grants : ℕ → Bool) (plenty : Plenty grants) (held : ℕ → ℕ) (h : Heap) where
  pub malloc_lem : Accounts held h → Ends (Allocated held) (malloc grants h)
  unfolding malloc
  malloc_lem a =
      rw (plenty h.next, malloc)
        (Ends-pure (block h.next) (record h { next = h.next + 1 })
          (h.next, refl, allocate held h a))

  pub must_malloc_lem : Accounts held h → Ends (Allocated held) (must_malloc grants h)
  unfolding must_malloc
  must_malloc_lem a =
      Ends-bind (malloc grants) (λ p. elim p [ null ↦ stop | block n ↦ pure (block n) ]) h
        (malloc_lem a)
        λ x h' q.
          subst-Allocated held (λ p. elim p [ null ↦ stop | block n ↦ pure (block n) ]) x h' q
            λ n h'' b. Ends-pure (block n) h'' (n, refl, b)

pub free_lem :
    (x : Pointer) (held : ℕ → ℕ) (h : Heap)
    → Accounts (λ p. held p + at x p) h
    → Ends (λ _ h'. Accounts held h') (free x h)
unfolding free count
free_lem null held h a = Ends-pure tt h λ p. omega (arith, a p)
free_lem (block n) held h a = Ends-pure tt (record h { freed = n ∷ h.freed }) λ p. freed p (a p)
  where
    freed :
        (p : ℕ)
        → held p + at (block n) p + count p h.freed ≡ (if ltb p h.next then 1 else 0)
        → held p + count p (n ∷ h.freed) ≡ (if ltb p h.next then 1 else 0)
    freed p e = omega arith

pub realloc_lem :
    (grants : ℕ → Bool) (plenty : Plenty grants) (old : Pointer) (held : ℕ → ℕ) (h : Heap)
    → Accounts (λ p. held p + at old p) h
    → Ends (Allocated held) (realloc grants old h)
unfolding realloc
realloc_lem grants plenty old held h a =
    Ends-bind (malloc grants) rest h (malloc_lem grants plenty (λ p. held p + at old p) h a)
      λ x h' q.
        subst-Allocated (λ p. held p + at old p) rest x h' q
          λ n h'' b.
            Ends-bind (free old) (λ _. pure (block n)) h''
              (free_lem old (λ p. held p + at (block n) p) h'' (λ p. omega (arith, b p)))
              λ _ h₃ c. Ends-pure (block n) h₃ (n, refl, c)
  where
    rest : Pointer → M Pointer
    rest p = elim p [ null ↦ pure null | block n ↦ free old >> pure (block n) ]

module _ {B : Type 0} {Q : B → Heap → Type 0} (held : ℕ → ℕ) (h : Heap) where
  pub free-bind :
      (x : Pointer) (f : Unit {0} → M B)
      → Accounts (λ p. held p + at x p) h
      → ((h' : Heap) → Accounts held h' → Ends Q (f tt h'))
      → Ends Q ((free x >>= f) h)
  free-bind x f a next = Ends-bind (free x) f h (free_lem x held h a) λ _ h' b. next h' b

  module _ (grants : ℕ → Bool) (plenty : Plenty grants) (f : Pointer → M B) where
    pub malloc-bind :
        Accounts held h
        → ((n : ℕ) (h' : Heap)
            → Accounts (λ p. held p + at (block n) p) h'
            → Ends Q (f (block n) h'))
        → Ends Q ((malloc grants >>= f) h)
    malloc-bind a next =
        Ends-bind (malloc grants) f h (malloc_lem grants plenty held h a)
          λ x h' q. subst-Allocated held f x h' q next

    pub must_malloc-bind :
        Accounts held h
        → ((n : ℕ) (h' : Heap)
            → Accounts (λ p. held p + at (block n) p) h'
            → Ends Q (f (block n) h'))
        → Ends Q ((must_malloc grants >>= f) h)
    must_malloc-bind a next =
        Ends-bind (must_malloc grants) f h (must_malloc_lem grants plenty held h a)
          λ x h' q. subst-Allocated held f x h' q next

    pub realloc-bind :
        (old : Pointer)
        → Accounts (λ p. held p + at old p) h
        → ((n : ℕ) (h' : Heap)
            → Accounts (λ p. held p + at (block n) p) h'
            → Ends Q (f (block n) h'))
        → Ends Q ((realloc grants old >>= f) h)
    realloc-bind old a next =
        Ends-bind (realloc grants old) f h (realloc_lem grants plenty old held h a)
          λ x h' q. subst-Allocated held f x h' q next

-- An execution beside the heap.
pub lift-bind :
    {A B : Type 0} {Q : B → Heap → Type 0}
    → (r : Run A) (a : A) (f : A → M B) (h : Heap) → r ≡ done a
    → Ends Q (f a h)
    → Ends Q ((lift r >>= f) h)
unfolding ◌>>=◌
lift-bind r a f h e next = rw (e, ◌>>=◌) next
