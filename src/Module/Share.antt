-- ===== src/Module/Share.antt =====
-- `globus_l_dsi_rest_share_lock` and `globus_l_dsi_rest_share_unlock` of module.c, which libcurl calls
-- around each use of the cookies, names and sessions that its handles share.
use globus_dsi_rest.Base.{
  ℕ, Bool, true, false, Option, none, some, List, [], ◌∷◌, ◌==◌, if◌then◌else◌,
}
use globus_dsi_rest.Base.Runs.{Run, done, stuck, ◌>>=◌}

-- `curl_lock_data`; the values that the assertion refuses are one.
pub data LockData : Type 0 where
  share cookie dns ssl_session other : LockData

-- `curl_lock_access`
pub data Access : Type 0 where
  shared single : Access

-- A `globus_rw_mutex_t`, by the threads that have it for reading and the one that has it for writing,
-- and the owner beside it, where no thread is the zeroes that `memset` leaves.
pub record RwLock : Type 0 where
  pub readers : List ℕ
  pub writer : Option ℕ
  pub owner : Option ℕ

-- The four locks with `globus_l_dsi_rest_write_lock_owners`.
pub record ShareLocks : Type 0 where
  pub share_lock : RwLock
  pub cookie_lock : RwLock
  pub dns_lock : RwLock
  pub ssl_lock : RwLock

-- The `switch` on the data.
unfoldable pub select_lock : LockData → ShareLocks → Option RwLock
select_lock share s = some s.share_lock
select_lock cookie s = some s.cookie_lock
select_lock dns s = some s.dns_lock
select_lock ssl_session s = some s.ssl_lock
select_lock other s = none

-- What becomes of the lock.
unfoldable pub put_lock : LockData → RwLock → ShareLocks → ShareLocks
put_lock share l s = record s { share_lock = l }
put_lock cookie l s = record s { cookie_lock = l }
put_lock dns l s = record s { dns_lock = l }
put_lock ssl_session l s = record s { ssl_lock = l }
put_lock other l s = s

-- The lock when the thread has got it, or nothing while it waits. A reader waits for a writer, and a
-- writer for all others; one that has got the lock is noted as its owner.
unfoldable pub take_lock : ℕ → Access → RwLock → Option RwLock
take_lock thread shared l = elim l.writer [
  | none ↦ some (record l { readers = thread ∷ l.readers })
  | some w ↦ none
]
take_lock thread single l = elim l.writer [
  | some w ↦ none
  | none ↦ elim l.readers [
    | [] ↦ some (record l { writer = some thread; owner = some thread })
    | r ∷ rs ↦ none
  ]
]

-- `globus_l_dsi_rest_share_lock` by a thread: the locks when it returns, or nothing while it waits.
unfoldable pub lock_share : ℕ → LockData → Access → ShareLocks → Run (Option ShareLocks)
unfolding select_lock put_lock take_lock
lock_share thread which access s = elim (select_lock which s) [
  | none ↦ stuck
  | some l ↦ elim (take_lock thread access l) [
    | none ↦ done none
    | some l' ↦ done (some (put_lock which l' s))
  ]
]

-- `globus_thread_equal`, for an owner that may have been cleared.
abbrev pub is_owner : ℕ → Option ℕ → Bool
is_owner thread none = false
is_owner thread (some owner) = owner == thread

-- One reader less; a thread that has no read lock must not give one back.
unfoldable pub remove_reader : ℕ → List ℕ → Run (List ℕ)
remove_reader thread [] = stuck
remove_reader thread (r ∷ rs) = elim (r == thread) [
  | true ↦ done rs
  | false ↦ do rest ← remove_reader thread rs; done (r ∷ rest)
]

-- The owner gives the write lock back, any other thread a read lock.
unfoldable pub drop_lock : ℕ → RwLock → Run RwLock
unfolding remove_reader
drop_lock thread l = elim (is_owner thread l.owner) [
  | true ↦
      if is_owner thread l.writer then done (record l { writer = none; owner = none }) else stuck
  | false ↦ do rs ← remove_reader thread l.readers; done (record l { readers = rs })
]

-- `globus_l_dsi_rest_share_unlock`
unfoldable pub unlock_share : ℕ → LockData → ShareLocks → Run ShareLocks
unfolding select_lock put_lock drop_lock
unlock_share thread which s = elim (select_lock which s) [
  | none ↦ stuck
  | some l ↦ do l' ← drop_lock thread l; done (put_lock which l' s)
]
