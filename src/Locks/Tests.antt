-- ===== src/Locks/Tests.antt =====
-- One task that has got the lock.
use neux_os.Prelude.{refl}
use neux_os.Locks.{simplock_init, simplock_obtain, starts, obtains, Reached}
use neux_os.Locks.Exclusion.{IsExclusive, Undisturbed-IsExclusive}

Undisturbed-IsExclusive_example :
    IsExclusive (simplock_obtain 7 simplock_init) × Reached (simplock_obtain 7 simplock_init)
Undisturbed-IsExclusive_example =
    Undisturbed-IsExclusive (simplock_obtain 7 simplock_init)
      (obtains 7 simplock_init starts refl refl)
