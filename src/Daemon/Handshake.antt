-- ===== src/Daemon/Handshake.antt =====
-- crates/daemon/src/handshake.rs, with Transport::connect_control of tls.rs: how two devices introduce
-- themselves on a new control connection. What TLS and the sockets do is a parameter; serde_json at
-- identities is another.
pub mod Agreement
pub mod Dialled
pub mod Examples
use handfast.Base.{
  ℕ, String, Bool, true, false, not, Option, none, some, List, [], ◌∷◌, ◌++◌, ◌==◌, ◌&&◌, length,
  leb, str_eq, if◌then◌else◌,
}
use handfast.Json.{Value, null, unwrap_or}
use handfast.Protocol.Types.{type_identity, max_packet_len}
use handfast.Protocol.Packet.{Packet, new}
use handfast.Protocol.Frame.{FrameError, Reader, Serde, Result, encode_into, read_from}
use handfast.Device.State.{Identity}

pub data HandshakeError : Type 0 where
  unfinished not_plaintext too_long malformed_packet unexpected_type malformed_body : HandshakeError
  no_tls not_written timed_out no_device_id id_changed version_changed : HandshakeError
  framing : FrameError → HandshakeError

pub data Attempt (A : Type 0) : Type 0 where
  ok : A → Attempt A
  err : HandshakeError → Attempt A

infixl 5 ◌>>=◌
abbrev pub ◌>>=◌ : {A B : Type 0} → Attempt A → (A → Attempt B) → Attempt B
err e >>= f = err e
ok a >>= f = f a

pub record IdentitySerde : Type 0 where
  pub to_value : Identity → Option Value
  pub from_value : Value → Option Identity

-- What the world does during a handshake: whether the peer falls silent and does not close the
-- connection, what TLS makes of the bytes that follow the first line, whether our identity can be
-- written, and whether the peer's arrives in time.
pub record Peer : Type 0 where
  pub is_silent : Bool
  pub tls : List ℕ → Option Reader
  pub writes : Bool
  pub in_time : Bool

-- A frame that was read.
abbrev pub framed : {A : Type 0} → Result A → Attempt A
framed (Result.err e) = err (framing e)
framed (Result.ok a) = ok a

unfoldable pub cross_check : Identity → Identity → Attempt Unit
cross_check plain secure =
    if not (str_eq plain.device_id secure.device_id)
    then err id_changed
    else if not (plain.protocol_version == secure.protocol_version)
    then err version_changed
    else ok tt

-- The upgrade to TLS.
abbrev pub upgraded : Peer → List ℕ → Attempt Reader
upgraded peer bytes = elim (peer.tls bytes) [ none ↦ err no_tls | some inbound ↦ ok inbound ]

module _ (s : Serde) (i : IdentitySerde) where
  -- `Packet::identity`
  unfoldable pub identity : ℕ → Identity → Packet × ℕ
  unfolding new unwrap_or
  identity counter mine = new counter type_identity (unwrap_or (i.to_value mine) null)

  -- The packet has to be an identity.
  unfoldable pub introduced : Packet → Attempt Identity
  introduced p =
      if not (str_eq p.ptype type_identity)
      then err unexpected_type
      else elim (i.from_value p.body) [ none ↦ err malformed_body | some theirs ↦ ok theirs ]

  unfoldable pub first_line : List ℕ → Attempt Identity
  unfolding introduced
  first_line line = elim (s.from_slice line) [ none ↦ err malformed_packet | some p ↦ introduced p ]

  -- The loop of `read_plaintext_identity`: the identity, and the bytes that were not read.
  unfoldable pub read_line : Peer → List ℕ → Bool → List ℕ → Attempt (Identity × List ℕ)
  unfolding first_line
  read_line peer line first [] = err (if peer.is_silent then timed_out else unfinished)
  read_line peer line first (b ∷ bs) =
      let rest = read_line peer (line ++ b ∷ []) false bs in
      if first && not (b == 123)
      then err not_plaintext
      else if leb max_packet_len (length line)
      then err too_long
      else if b == 10
      then (first_line line >>= λ theirs. ok (theirs, bs))
      else rest

  unfoldable pub read_plaintext_identity : Peer → List ℕ → Attempt (Identity × List ℕ)
  unfolding read_line
  read_plaintext_identity peer bytes = read_line peer [] true bytes

  -- Our identity is written, and theirs is read: theirs, and what follows it.
  unfoldable pub exchange : Peer → Packet → Reader → Attempt (Identity × Reader)
  unfolding encode_into read_from introduced
  exchange peer hello inbound = framed (encode_into s hello []) >>= λ _.
      if not peer.writes
      then err not_written
      else if not peer.in_time
      then err timed_out
      else framed (read_from s inbound) >>= λ out. introduced out.0 >>= λ theirs.
          if str_eq theirs.device_id "" then err no_device_id else ok (theirs, out.1)

  unfoldable pub accept_control : Peer → ℕ → Identity → List ℕ → Attempt (Identity × Reader)
  unfolding read_plaintext_identity exchange cross_check identity
  accept_control peer counter mine bytes = read_plaintext_identity peer bytes >>= λ plain.
      upgraded peer plain.1 >>= λ inbound.
      exchange peer (identity counter mine).0 inbound >>= λ secure.
      cross_check plain.0 secure.0 >>= λ _. ok secure

  -- `connect_control`: the line that the dialer writes, before it answers the peer's TLS.
  unfoldable pub dial_line : ℕ → Identity → Attempt (List ℕ)
  unfolding identity
  dial_line counter mine = elim (s.to_vec (identity counter mine).0) [
    | none ↦ err malformed_packet
    | some json ↦ ok (json ++ 10 ∷ [])
  ]

  -- The dialer's side, whose peer sends no line; the packets are numbered on.
  unfoldable pub dial_control : Peer → ℕ → Identity → List ℕ → Attempt (Identity × Reader)
  unfolding dial_line exchange identity
  dial_control peer counter mine bytes = dial_line counter mine >>= λ _.
      upgraded peer bytes >>= λ inbound.
      exchange peer (identity (identity counter mine).1 mine).0 inbound
