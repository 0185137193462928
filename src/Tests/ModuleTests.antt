-- ===== src/Tests/ModuleTests.antt =====
-- The module's activation and its locks at concrete inputs.
use globus_dsi_rest.Base.{ℕ, ◌≡◌, refl, none, some, [], ◌∷◌, arith}
use globus_dsi_rest.Base.Runs.{done}
use globus_dsi_rest.Handles.{Cache}
use globus_dsi_rest.Handles.Laws.{IsValid, cached}
use globus_dsi_rest.Module.Share.{
  cookie, shared, RwLock, ShareLocks, select_lock, put_lock, take_lock, lock_share, unlock_share,
}
use globus_dsi_rest.Module.Locks.{
  AreExclusive, reads, HoldsLock, reading, locks, all_free, Reaches, begins, steps, GaveBack,
  Reaches-AreExclusive, unlock_share-GaveBack,
}
use globus_dsi_rest.Module.Activate.{
  Resource, activate, resources, reverse_onto, Deactivated, deactivate,
}
use globus_dsi_rest.Module.Activate.Undone.{Ends, activate-Ends, after, reverse, deactivate-Undoes}

-- Two threads that read the cookies.
abbrev two_readers : ShareLocks
two_readers = record all_free {
  cookie_lock = record { readers = 2 ∷ 1 ∷ []; writer = none; owner = none };
}

abbrev one_reader : ShareLocks
one_reader = record all_free {
  cookie_lock = record { readers = 1 ∷ []; writer = none; owner = none };
}

one_reader-Reaches : Reaches one_reader
unfolding lock_share take_lock select_lock put_lock
one_reader-Reaches = steps begins (locks 1 cookie shared refl)

two_readers-Reaches : Reaches two_readers
unfolding lock_share take_lock select_lock put_lock
two_readers-Reaches = steps one_reader-Reaches (locks 2 cookie shared refl)

Reaches-AreExclusive_example : AreExclusive two_readers
Reaches-AreExclusive_example = Reaches-AreExclusive two_readers two_readers-Reaches

one_holds : HoldsLock 1 two_readers.cookie_lock shared
unfolding reads
one_holds = reading (omega arith)

unlock_share-GaveBack_example :
    (l' : RwLock) × (unlock_share 1 cookie two_readers ≡ done (put_lock cookie l' two_readers))
    × GaveBack 1 two_readers.cookie_lock shared l'
unfolding select_lock
unlock_share-GaveBack_example =
    unlock_share-GaveBack two_readers cookie two_readers.cookie_lock 1 shared two_readers-Reaches
      refl one_holds

-- The lock of the sessions cannot be initialised.
abbrev no_ssl : Resource → ℕ
no_ssl Resource.ssl_lock = 12
no_ssl _ = 0

activate-Ends_example : Ends no_ssl (activate no_ssl [])
activate-Ends_example = activate-Ends no_ssl []

abbrev two_cached : Cache
two_cached = record {
  slots = 7 ∷ 9 ∷ 0 ∷ 0 ∷ 0 ∷ 0 ∷ 0 ∷ 0 ∷ 0 ∷ 0 ∷ 0 ∷ 0 ∷ 0 ∷ 0 ∷ 0 ∷ 0 ∷ [];
  index = 2;
}

two_cached-IsValid : IsValid two_cached
two_cached-IsValid = record { sized = omega arith; within = omega arith }

deactivate-Undoes_example :
    (d : Deactivated) × (deactivate two_cached ≡ done d)
    × (d.cleaned ≡ reverse (cached two_cached))
    × (after d.events (reverse_onto resources []) ≡ some [])
deactivate-Undoes_example = deactivate-Undoes two_cached two_cached-IsValid
