-- ===== src/Threads.antt =====
-- src/as-smpp-core/src/threads.c over the threads of the C standard, which are a parameter.
pub mod Codes
use as_smpp.Prelude.{ℕ, Bool, not, Option, none, some, ◌==◌, if◌then◌else◌, bit_and, bit_or}
use as_smpp.Types.{ErrorCode}

-- The flags of mtx_init, and whether a call returns thrd_success.
pub record ThreadLibrary : Type 0 where
  pub mtx_plain : ℕ
  pub mtx_timed : ℕ
  pub mtx_recursive : ℕ
  pub mtx_init : ℕ → Bool
  pub mtx_lock : Bool
  pub mtx_unlock : Bool
  pub cnd_init : Bool
  pub cnd_signal : Bool
  pub cnd_broadcast : Bool
  pub cnd_wait : Bool
  -- with the time to wait until
  pub cnd_timedwait : ℕ → Bool
  pub thrd_create : Bool

-- AS_SMPP_MUTEX_TYPE_PLAIN and so on
abbrev pub type_plain : ℕ
type_plain = 1

abbrev pub type_timed : ℕ
type_timed = 2

abbrev pub type_recursive : ℕ
type_recursive = 4

-- AS_SMPP_SET_RESULT_CODE_IF, on the code that the result has
abbrev pub set_result_code_if : Bool → ErrorCode → ErrorCode → ErrorCode
set_result_code_if condition code result = if condition then code else result

abbrev pub flag_if : ℕ → ℕ → ℕ → ℕ
flag_if type bit flag = if bit_and type bit == 0 then 0 else flag

-- as_smpp_mutex_destroy and as_smpp_condition_destroy: the library functions have no result.
unfoldable pub mutex_destroy : ErrorCode
mutex_destroy = ErrorCode.none

unfoldable pub condition_destroy : ErrorCode
condition_destroy = ErrorCode.none

module _ (lib : ThreadLibrary) where
  unfoldable pub mutex_flags : ℕ → ℕ
  mutex_flags type =
      bit_or
        (bit_or (flag_if type type_plain lib.mtx_plain) (flag_if type type_timed lib.mtx_timed))
        (flag_if type type_recursive lib.mtx_recursive)

  unfoldable pub mutex_init : ℕ → ErrorCode
  mutex_init type =
      set_result_code_if (not (lib.mtx_init (mutex_flags type))) ErrorCode.mutex_init ErrorCode.none

  unfoldable pub mutex_lock : ErrorCode
  mutex_lock = set_result_code_if (not lib.mtx_lock) ErrorCode.threads ErrorCode.none

  unfoldable pub mutex_unlock : ErrorCode
  mutex_unlock = set_result_code_if (not lib.mtx_unlock) ErrorCode.threads ErrorCode.none

  unfoldable pub condition_init : ErrorCode
  condition_init = set_result_code_if (not lib.cnd_init) ErrorCode.condition_init ErrorCode.none

  unfoldable pub condition_signal : ErrorCode
  condition_signal = set_result_code_if (not lib.cnd_signal) ErrorCode.threads ErrorCode.none

  unfoldable pub condition_signal_all : ErrorCode
  condition_signal_all = set_result_code_if (not lib.cnd_broadcast) ErrorCode.threads ErrorCode.none

  unfoldable pub condition_wait : Option ℕ → ErrorCode
  condition_wait none = set_result_code_if (not lib.cnd_wait) ErrorCode.threads ErrorCode.none
  condition_wait (some until) =
      set_result_code_if (not (lib.cnd_timedwait until)) ErrorCode.threads ErrorCode.none

  unfoldable pub thread_create : ErrorCode
  thread_create = set_result_code_if (not lib.thrd_create) ErrorCode.threads ErrorCode.none
