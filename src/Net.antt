-- ===== src/Net.antt =====
-- src/as-smpp-core/src/net.c, for POSIX. The socket functions of the operating system are a parameter.
use as_smpp.Prelude.{ℕ, Bool, List, [], ◌∷◌, Option, none, some, length, ◌==◌}
use as_smpp.Prelude.{Run, ret, ◌>>=◌, if◌then◌else◌}
use as_smpp.Buffer.{Buffer}
use as_smpp.Buffer.Cells.{load_block, copy_in}
use as_smpp.Types.{CharPtr, ErrorCode}
use as_smpp.Session.{Event, World, emit}

-- Each answer is that of a call with these arguments; `none` is a failure.
pub record Platform : Type 0 where
  -- the address list for a host and a port
  pub getaddrinfo : CharPtr → ℕ → Option ℕ
  pub socket : ℕ → Option ℕ
  pub connect : ℕ → ℕ → Bool
  -- how many bytes were taken over
  pub send : ℕ → List ℕ → Option ℕ

-- The handle after a failed call of `socket`: -1 as an unsigned word.
abbrev pub invalid_socket : ℕ
invalid_socket = 4294967295

-- The error code for what `send` returned: any number that is not negative will do.
unfoldable pub send_result : Option ℕ → ErrorCode
send_result none = ErrorCode.net
send_result (some n) = ErrorCode.none

-- as_smpp_net_init
unfoldable pub net_init : ErrorCode
net_init = ErrorCode.none

module _ (os : Platform) where
  -- as_smpp_net_connect: the error code, the handle, and what was released
  unfoldable pub net_connect : ℕ → CharPtr → ℕ → ErrorCode × ℕ × List Event
  net_connect handle hostname port_no = elim (os.getaddrinfo hostname port_no) [
    | none ↦ (ErrorCode.getaddrinfo, handle, [])
    | some address ↦ elim (os.socket address) [
      | none ↦ (ErrorCode.net, invalid_socket, Event.freed_address address ∷ [])
      | some fd ↦
          if os.connect fd address
          then (ErrorCode.none, fd, Event.freed_address address ∷ [])
          else (ErrorCode.net, fd, Event.closed_socket fd ∷ Event.freed_address address ∷ [])
    ]
  ]

  -- as_smpp_net_send
  unfoldable pub net_send : World → ℕ → Buffer → Run (ErrorCode × World)
  net_send w handle b = do
    bytes ← load_block b.ptr 0 b.data_len
    ret (send_result (os.send handle bytes), emit (Event.sent handle bytes ∷ []) w)

-- as_smpp_net_receive, where `recv` answered with these bytes, or with none at the end of the
-- connection or for an error
unfoldable pub net_receive : List ℕ → Buffer → Run (ErrorCode × Buffer)
net_receive bytes b = if length bytes == 0 then ret (ErrorCode.net, b) else do
  cells ← copy_in b.ptr 0 bytes
  ret (ErrorCode.none, record b { ptr = cells; data_len = length bytes })
