-- ===== src/Smpp/BindFrame.antt =====
-- The frame of a bind request: as_smpp_bind of src/as-smpp-core/src/smpp.c.
use as_smpp.Prelude.{ℕ, ◌+◌, ◌%◌, ◌^◌, ◌<◌, ◌≡◌, refl, arith}
use as_smpp.Prelude.{List, [], ◌∷◌, ◌++◌, ret, none, some, length, length-append, All}
use as_smpp.Memory.{Memory, IsSupplied, size_mod}
use as_smpp.Buffer.Valid.{IsValid, Writes, Writes-bind}
use as_smpp.Types
use as_smpp.Types.{CharPtr, ErrorCode}
use as_smpp.Session.{World}
use as_smpp.Net.{Platform}
use as_smpp.Serializer.{serialize_string}
use as_smpp.Serializer.Spec.{big_endian}
use as_smpp.Serializer.Integer.{serialize_integer-Writes}
use as_smpp.Serializer.Text.{IsChar, serialize_string-Writes, serialize_string-Writes_null}
use as_smpp.Smpp.{bind, bind_command}
use as_smpp.Smpp.Framing.{frame}
use as_smpp.Smpp.Sending.{SentOnce, headed, send_filled_lem}

-- The pointer shows the text `t`: it is the memory of `t` with its terminator, or NULL for no text.
pub data Shows : CharPtr → List ℕ → Type 0 where
  text : (t rest : List ℕ) → Shows (some (t ++ (0 ∷ rest))) t
  null : Shows none []

-- A text that is shorter than `max_len`.
pub record IsField (max_len : ℕ) (t : List ℕ) : Type 0 where
  pub chars : All IsChar t
  pub short : length t < max_len

-- What a bind request carries.
pub record Login : Type 0 where
  pub system_id : List ℕ
  pub password : List ℕ
  pub system_type : List ℕ
  pub ton : ℕ
  pub npi : ℕ
  pub address_range : List ℕ

-- A login whose parts fit their fields.
pub record IsLogin (l : Login) : Type 0 where
  pub system_id : IsField Types.length_system_id l.system_id
  pub password : IsField 9 l.password
  pub system_type : IsField 13 l.system_type
  pub address_range : IsField 41 l.address_range

unfoldable pub bind_bytes : Login → ℕ → List ℕ
bind_bytes l version =
    (l.system_id ++ (0 ∷ []))
    ++ ((l.password ++ (0 ∷ []))
        ++ ((l.system_type ++ (0 ∷ []))
            ++ (big_endian 1 version
                ++ (big_endian 1 l.ton ++ (big_endian 1 l.npi ++ (l.address_range ++ (0 ∷ [])))))))

length-bind_bytes : (l : Login) (version : ℕ) → IsLogin l → length (bind_bytes l version) < 90
unfolding bind_bytes big_endian
length-bind_bytes l version ok = simp length-append (
    omega
      (arith, ok.system_id.short, ok.password.short, ok.system_type.short, ok.address_range.short))

module _ (mem : Memory) (supply : IsSupplied mem) where
  Shows-Writes :
      {p : CharPtr} {t : List ℕ} (max_len : ℕ)
      → Shows p t
      → IsField max_len t
      → Writes (max_len + 16) (t ++ (0 ∷ [])) (λ b. serialize_string mem b p max_len)
  Shows-Writes max_len (text t rest) ok =
      serialize_string-Writes mem supply t rest max_len ok.chars ok.short
  Shows-Writes max_len null ok = serialize_string-Writes_null mem supply max_len ok.short

  -- For a login whose parts fit their fields, each given as a text with its terminator or as NULL where
  -- it is empty, a well-formed send buffer that size_t leaves 274 bytes to grow, and allocations that
  -- succeed: bind returns no error and has handed one frame to the socket, under the send mutex, with
  -- the command of the session's mode, the session's sequence number and version, and the login. Of the
  -- session only the number, which is counted up as a 32-bit word, and the send buffer change.
  pub bind-frame :
      (os : Platform) (w : World) (l : Login)
      (system_id password system_type address_range : CharPtr)
      → IsLogin l
      → Shows system_id l.system_id
      → Shows password l.password
      → Shows system_type l.system_type
      → Shows address_range l.address_range
      → IsValid w.session.send_buffer
      → w.session.send_buffer.capacity + 274 < size_mod
      → let s = w.session in
        (w' : World) × (bind mem os w system_id password system_type l.ton l.npi address_range
          ≡ ret (ErrorCode.none, w'))
        × SentOnce 274
            (frame
              (bind_command s.mode)
              Types.status_rok
              s.sequence_no
              (bind_bytes l s.smpp_version))
            w
            (record s { sequence_no = (s.sequence_no + 1) % 2 ^ 32 })
            w'
  unfolding bind bind_bytes
  bind-frame os w l system_id password system_type address_range ok p₁ p₂ p₃ p₄ v room =
      let s = w.session in
      let byte = λ (x : ℕ). serialize_integer-Writes mem supply 1 x (omega arith) in
      let body = headed mem os (bind_command s.mode) Types.status_rok s.sequence_no supply (
        Writes-bind (Shows-Writes Types.length_system_id p₁ ok.system_id) (
          Writes-bind (Shows-Writes 9 p₂ ok.password) (
            Writes-bind (Shows-Writes 13 p₃ ok.system_type) (
              Writes-bind (byte s.smpp_version) (
                Writes-bind (byte l.ton)
                  (Writes-bind (byte l.npi) (Shows-Writes 41 p₄ ok.address_range))))))) in
      let (w', r, once) =
        send_filled_lem mem os _ _ _ _ _ _ w
          (record s { sequence_no = (s.sequence_no + 1) % 2 ^ 32 }) body
          (omega (arith, length-bind_bytes l s.smpp_version ok)) v room in
      (w', rw r refl, once)
