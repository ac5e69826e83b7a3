-- ===== src/Esme.antt =====
-- src/as-smpp-esme/src/esme.c
pub mod Start
use as_smpp.Prelude.{ℕ, Bool, Option, none, some, Run, ret, ◌>>=◌}
use as_smpp.Memory.{Memory}
use as_smpp.Types.{CharPtr, ErrorCode}
use as_smpp.Session.{SessionMode, World, with_session}
use as_smpp.Net.{Platform}
use as_smpp.Smpp.{bind}
use as_smpp.Smpp.Worker.{connect}

-- The arguments of as_smpp_esme_start, the session apart.
pub record Options : Type 0 where
  pub hostname : CharPtr
  pub port_no : ℕ
  pub session_mode : SessionMode
  pub system_id : CharPtr
  pub password : CharPtr
  pub system_type : CharPtr
  pub version : ℕ
  pub address_ton : ℕ
  pub address_npi : ℕ
  pub address_range : CharPtr
  pub use_udh : Bool
  pub use_message_payload_tlv : Bool
  pub max_sm_length : ℕ

-- The fields that are set before the connection is made.
unfoldable pub configured : World → Options → World
configured w o =
    let s = w.session in
    with_session
      (record s {
        sequence_no = 1;
        mode = o.session_mode;
        smpp_version = o.version;
        use_udh = o.use_udh;
        use_message_payload_tlv = o.use_message_payload_tlv;
        max_sm_length = o.max_sm_length;
      })
      w

module _ (mem : Memory) (os : Platform) where
  -- as_smpp_esme_start after as_smpp_connect, whose result is given; that of as_smpp_bind is not used.
  unfoldable pub bind_session : Options → ErrorCode × World → Run (ErrorCode × World)
  bind_session o (code, w) = elim code [
    | ErrorCode.none ↦ do
      (code, w) ←
          bind mem os w o.system_id o.password o.system_type o.address_ton o.address_npi
            o.address_range
      ret (ErrorCode.none, w)
    | _ ↦ ret (ErrorCode.net, w)
  ]

  -- as_smpp_esme_start behind its test for a null session
  unfoldable pub start_session : World → Options → Run (ErrorCode × World)
  start_session w o = bind_session o (connect os (configured w o) o.hostname o.port_no)

  -- as_smpp_esme_start; no session is a null pointer.
  unfoldable pub start : Option World → Options → Run (ErrorCode × Option World)
  start none o = ret (ErrorCode.arg_is_null, none)
  start (some w) o = do (code, w) ← start_session w o; ret (code, some w)
