-- ===== src/Module/Locks.antt =====
-- A thread that writes excludes all others, and an unlock gives back what its thread holds.
use mathlib.Core.Path.{subst}
use mathlib.Core.Option.{some-injective}
use globus_dsi_rest.Base.{
  ℕ, ◌+◌, ◌<◌, ◌≡◌, ◌⊎◌, inl, inr, refl, sym, ap, ◌∙◌, true, false, Option, none, some, List, [],
  ◌∷◌, ◌==◌, if◌then◌else◌, Bool-cases, Option-cases, ==→eq, eq→==, arith,
}
use globus_dsi_rest.Base.Runs.{Run, done, stuck, ◌>>=◌}
use globus_dsi_rest.Module.Share.{
  LockData, share, cookie, dns, ssl_session, other, Access, shared, single, RwLock, ShareLocks,
  select_lock, put_lock, take_lock, lock_share, remove_reader, drop_lock, unlock_share,
}

List-cases : (xs : List ℕ) → (xs ≡ []) ⊎ ((y : ℕ) × (ys : List ℕ) × (xs ≡ y ∷ ys))
List-cases [] = inl refl
List-cases (y ∷ ys) = inr (y, ys, refl)

-- How often a thread holds a lock for reading.
unfoldable pub reads : ℕ → List ℕ → ℕ
reads thread [] = 0
reads thread (r ∷ rs) = (if r == thread then 1 else 0) + reads thread rs

-- The owner is the writer, and a writer is alone.
pub record IsExclusive (l : RwLock) : Type 0 where
  pub owned : l.owner ≡ l.writer
  pub alone : (l.writer ≡ none) ⊎ (l.readers ≡ [])

-- All four locks.
pub record AreExclusive (s : ShareLocks) : Type 0 where
  pub for_share : IsExclusive s.share_lock
  pub for_cookie : IsExclusive s.cookie_lock
  pub for_dns : IsExclusive s.dns_lock
  pub for_ssl : IsExclusive s.ssl_lock

-- What a thread holds of a lock.
pub data HoldsLock (thread : ℕ) (l : RwLock) : Access → Type 0 where
  reading : 0 < reads thread l.readers → HoldsLock thread l shared
  writing : l.writer ≡ some thread → HoldsLock thread l single

-- What libcurl's threads do: each locks what it likes, and unlocks what it holds.
pub data Step (s s' : ShareLocks) : Type 0 where
  locks :
      (thread : ℕ) (which : LockData) (access : Access)
      → lock_share thread which access s ≡ done (some s')
      → Step s s'
  unlocks :
      (thread : ℕ) (which : LockData) (access : Access) (l : RwLock)
      → select_lock which s ≡ some l
      → HoldsLock thread l access
      → unlock_share thread which s ≡ done s'
      → Step s s'

abbrev pub free_lock : RwLock
free_lock = record { readers = []; writer = none; owner = none }

abbrev pub all_free : ShareLocks
all_free = record {
  share_lock = free_lock;
  cookie_lock = free_lock;
  dns_lock = free_lock;
  ssl_lock = free_lock;
}

pub data Reaches : ShareLocks → Type 0 where
  begins : Reaches all_free
  steps : {s s' : ShareLocks} → Reaches s → Step s s' → Reaches s'

module _ (s : ShareLocks) (e : AreExclusive s) where
  select-IsExclusive :
      (which : LockData) (l : RwLock) → select_lock which s ≡ some l → IsExclusive l
  unfolding select_lock
  select-IsExclusive share l q = subst IsExclusive (some-injective s.share_lock l q) e.for_share
  select-IsExclusive cookie l q = subst IsExclusive (some-injective s.cookie_lock l q) e.for_cookie
  select-IsExclusive dns l q = subst IsExclusive (some-injective s.dns_lock l q) e.for_dns
  select-IsExclusive ssl_session l q = subst IsExclusive (some-injective s.ssl_lock l q) e.for_ssl
  select-IsExclusive other l q = absurd cc

  put-AreExclusive :
      (which : LockData) (l : RwLock) → IsExclusive l → AreExclusive (put_lock which l s)
  unfolding put_lock
  put-AreExclusive share l x = record {
    for_share = x;
    for_cookie = e.for_cookie;
    for_dns = e.for_dns;
    for_ssl = e.for_ssl;
  }
  put-AreExclusive cookie l x = record {
    for_share = e.for_share;
    for_cookie = x;
    for_dns = e.for_dns;
    for_ssl = e.for_ssl;
  }
  put-AreExclusive dns l x = record {
    for_share = e.for_share;
    for_cookie = e.for_cookie;
    for_dns = x;
    for_ssl = e.for_ssl;
  }
  put-AreExclusive ssl_session l x = record {
    for_share = e.for_share;
    for_cookie = e.for_cookie;
    for_dns = e.for_dns;
    for_ssl = x;
  }
  put-AreExclusive other l x = e

-- A lock that is taken from an exclusive one is exclusive.
take_lock-IsExclusive :
    (thread : ℕ) (access : Access) (l : RwLock)
    → IsExclusive l
    → (take_lock thread access l ≡ none)
      ⊎ ((l' : RwLock) × (take_lock thread access l ≡ some l') × IsExclusive l')
unfolding take_lock
take_lock-IsExclusive thread shared l x = elim (Option-cases l.writer) [
  | inl e ↦ inr (
    record l { readers = thread ∷ l.readers },
    simp (e, take_lock),
    record { owned = x.owned; alone = inl e },
  )
  | inr (w, e) ↦ inl (simp (e, take_lock))
]
take_lock-IsExclusive thread single l x = elim (Option-cases l.writer) [
  | inr (w, e) ↦ inl (simp (e, take_lock))
  | inl e ↦ elim (List-cases l.readers) [
    | inl e' ↦ inr (
      record l { writer = some thread; owner = some thread },
      simp (e, e', take_lock),
      record { owned = refl; alone = inr e' },
    )
    | inr (r, rs, e') ↦ inl (simp (e, e', take_lock))
  ]
]

locked_or : ShareLocks → Run (Option ShareLocks) → ShareLocks
locked_or s (done (some s')) = s'
locked_or s _ = s

unlocked_or : ShareLocks → Run ShareLocks → ShareLocks
unlocked_or s (done s') = s'
unlocked_or s _ = s

lock_share-AreExclusive :
    (thread : ℕ) (which : LockData) (access : Access) (s s' : ShareLocks)
    → AreExclusive s
    → lock_share thread which access s ≡ done (some s')
    → AreExclusive s'
unfolding lock_share locked_or
lock_share-AreExclusive thread which access s s' x e = elim (Option-cases (select_lock which s)) [
  | inl n ↦ let e' : stuck ≡ done (some s') = rw (n, lock_share) at e in absurd cc
  | inr (l, q) ↦ elim (take_lock-IsExclusive thread access l (select-IsExclusive s x which l q)) [
    | inl n ↦ let e' : done none ≡ done (some s') = rw (q, lock_share, n) at e in absurd cc
    | inr (l', t, x') ↦
        let e' : done (some (put_lock which l' s)) ≡ done (some s') = rw (q, lock_share, t) at e in
        subst AreExclusive (ap (locked_or s) e') (put-AreExclusive s x which l' x')
  ]
]

-- What an unlock leaves: one read lock of the thread less, and no other, or no writer.
abbrev pub GaveBack : ℕ → RwLock → Access → RwLock → Type 0
GaveBack thread l shared l' =
    (l'.writer ≡ l.writer)
    × ((p : ℕ) → reads p l.readers ≡ (if thread == p then 1 else 0) + reads p l'.readers)
GaveBack thread l single l' = (l'.writer ≡ none) × (l'.readers ≡ l.readers)

-- What a list of readers is without one entry of a thread.
abbrev Without : ℕ → List ℕ → Type 0
Without thread rs =
    (rs' : List ℕ) × (remove_reader thread rs ≡ done rs')
    × ((p : ℕ) → reads p rs ≡ (if thread == p then 1 else 0) + reads p rs')

skip_reader :
    (thread r : ℕ) (rs : List ℕ)
    → (r == thread) ≡ false
    → Without thread rs
    → Without thread (r ∷ rs)
unfolding remove_reader reads
skip_reader thread r rs e (rs', q, c) =
    (r ∷ rs', rw (e, remove_reader) (rw (q, ◌>>=◌) refl), λ p. omega (arith, c p))

remove_reader_lem : (thread : ℕ) (rs : List ℕ) → 0 < reads thread rs → Without thread rs
unfolding remove_reader reads
remove_reader_lem thread [] h = absurd (omega arith)
remove_reader_lem thread (r ∷ rs) h = elim (Bool-cases (r == thread)) [
  | inl e ↦ (rs, rw (e, remove_reader) refl, λ p. rw (==→eq r thread e) refl)
  | inr e ↦
      let h' : 0 < 0 + reads thread rs = rw e at h in
      skip_reader thread r rs e (remove_reader_lem thread rs (omega (arith, h')))
]

no_reads : (thread : ℕ) → 0 < reads thread [] → ⊥
unfolding reads
no_reads thread h = omega arith

drop_lock_lem :
    (thread : ℕ) (access : Access) (l : RwLock)
    → IsExclusive l
    → HoldsLock thread l access
    → (l' : RwLock) × (drop_lock thread l ≡ done l') × IsExclusive l' × GaveBack thread l access l'
unfolding drop_lock
drop_lock_lem thread shared l x (reading r) = elim x.alone [
  | inr e ↦ let r' : 0 < reads thread [] = rw e at r in absurd (no_reads thread r')
  | inl e ↦
      let o : l.owner ≡ none = x.owned ∙ e in
      let (rs', q, c) = remove_reader_lem thread l.readers r in
      (
        record l { readers = rs' },
        simp (o, drop_lock, q, ◌>>=◌),
        record { owned = x.owned; alone = inl e },
        (refl, c),
      )
]
drop_lock_lem thread single l x (writing w) =
    let o : l.owner ≡ some thread = x.owned ∙ w in
    let t : (thread == thread) ≡ true = eq→== thread thread refl in
    (
      record l { writer = none; owner = none },
      simp (o, w, drop_lock, t),
      record { owned = refl; alone = inl refl },
      (refl, refl),
    )

unlock_share_lem :
    (s : ShareLocks) (which : LockData) (l : RwLock) (thread : ℕ) (access : Access)
    → AreExclusive s
    → select_lock which s ≡ some l
    → HoldsLock thread l access
    → (l' : RwLock) × (unlock_share thread which s ≡ done (put_lock which l' s))
      × IsExclusive l'
      × GaveBack thread l access l'
unfolding unlock_share
unlock_share_lem s which l thread access x q holds =
    let (l', e, x', g) = drop_lock_lem thread access l (select-IsExclusive s x which l q) holds in
    (l', rw (q, unlock_share) (rw (e, ◌>>=◌) refl), x', g)

step-AreExclusive : (s s' : ShareLocks) → AreExclusive s → Step s s' → AreExclusive s'
unfolding unlocked_or
step-AreExclusive s s' x (locks thread which access e) =
    lock_share-AreExclusive thread which access s s' x e
step-AreExclusive s s' x (unlocks thread which access l q holds e) =
    let (l', e', x', g) = unlock_share_lem s which l thread access x q holds in
    subst AreExclusive (ap (unlocked_or s) (sym e' ∙ e)) (put-AreExclusive s x which l' x')

-- Whatever libcurl's threads lock, and unlock of what they hold, in any order: a lock's owner is always
-- its writer, and while there is a writer there is no reader.
pub Reaches-AreExclusive : (s : ShareLocks) → Reaches s → AreExclusive s
Reaches-AreExclusive s begins = record {
  for_share = record { owned = refl; alone = inl refl };
  for_cookie = record { owned = refl; alone = inl refl };
  for_dns = record { owned = refl; alone = inl refl };
  for_ssl = record { owned = refl; alone = inl refl };
}
Reaches-AreExclusive s' (steps {s} r step) = step-AreExclusive s s' (Reaches-AreExclusive s r) step

-- In every state that libcurl's threads reach, when a thread unlocks what it holds, the call ends and
-- gives back exactly that: one of its read locks, or the write lock, of the lock that is unlocked.
pub unlock_share-GaveBack :
    (s : ShareLocks) (which : LockData) (l : RwLock) (thread : ℕ) (access : Access)
    → Reaches s
    → select_lock which s ≡ some l
    → HoldsLock thread l access
    → (l' : RwLock) × (unlock_share thread which s ≡ done (put_lock which l' s))
      × GaveBack thread l access l'
unlock_share-GaveBack s which l thread access r q holds =
    let (l', e, x', g) =
      unlock_share_lem s which l thread access (Reaches-AreExclusive s r) q holds in
    (l', e, g)
