-- ===== src/Threads/Codes.antt =====
-- The error codes of the thread functions, and the flags of a plain mutex.
use as_smpp.Prelude.{ℕ, ◌≡◌, ◌↔◌, arith, Bool, true, Option, none, some}
use as_smpp.Prelude.Bits.{or_nothing}
use as_smpp.Types.{ErrorCode}
use as_smpp.Threads.{
  ThreadLibrary, mutex_flags, mutex_init, mutex_lock, mutex_unlock, condition_init,
  condition_signal, condition_signal_all, condition_wait, thread_create, type_plain,
}

-- The library function behind as_smpp_condition_wait, by the time that it is given.
abbrev waited : ThreadLibrary → Option ℕ → Bool
waited lib none = lib.cnd_wait
waited lib (some until) = lib.cnd_timedwait until

-- A call of a thread function returns no error exactly where the library function succeeds.
pub no_error :
    (lib : ThreadLibrary) (type : ℕ) (until : Option ℕ)
    → ((mutex_init lib type ≡ ErrorCode.none) ↔ (lib.mtx_init (mutex_flags lib type) ≡ true))
      × ((mutex_lock lib ≡ ErrorCode.none) ↔ (lib.mtx_lock ≡ true))
      × ((mutex_unlock lib ≡ ErrorCode.none) ↔ (lib.mtx_unlock ≡ true))
      × ((condition_init lib ≡ ErrorCode.none) ↔ (lib.cnd_init ≡ true))
      × ((condition_signal lib ≡ ErrorCode.none) ↔ (lib.cnd_signal ≡ true))
      × ((condition_signal_all lib ≡ ErrorCode.none) ↔ (lib.cnd_broadcast ≡ true))
      × ((condition_wait lib until ≡ ErrorCode.none) ↔ (waited lib until ≡ true))
      × ((thread_create lib ≡ ErrorCode.none) ↔ (lib.thrd_create ≡ true))
unfolding mutex_init mutex_lock mutex_unlock condition_init condition_signal condition_signal_all
    condition_wait thread_create
no_error lib type none = ground arith
no_error lib type (some until) = ground arith

-- The mutexes of a session are made with the flags of a plain mutex.
pub mutex_flags_plain : (lib : ThreadLibrary) → mutex_flags lib type_plain ≡ lib.mtx_plain
unfolding mutex_flags
mutex_flags_plain lib = or_nothing lib.mtx_plain
