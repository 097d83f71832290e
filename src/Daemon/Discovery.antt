-- ===== src/Daemon/Discovery.antt =====
-- crates/daemon/src/discovery.rs: the announcements of devices. What the socket receives is a list, and
-- the text of a datagram and its JSON are parameters.
pub mod Heard
pub mod Examples
use handfast.Base.{
  ℕ, String, Bool, true, false, Option, none, some, List, [], ◌∷◌, ◌==◌, take, str_eq,
  if◌then◌else◌,
}
use handfast.Json.{Value}
use handfast.Protocol.Types.{type_identity}
use handfast.Protocol.Packet.{Packet}
use handfast.Protocol.Frame.{Serde}
use handfast.Device.State.{Identity}
use handfast.Daemon.Handshake.{IdentitySerde, identity}

abbrev pub max_datagram : ℕ
max_datagram = 4096

pub record PeerAnnouncement : Type 0 where
  pub ip : String
  pub identity : Identity

pub data Datagram : Type 0 where
  failed : Datagram
  received : String → List ℕ → Datagram

-- `from_utf8`, `from_str::<Packet>` and `from_str::<Identity>`.
pub record TextSerde : Type 0 where
  pub from_utf8 : List ℕ → Option String
  pub packet : String → Option Packet
  pub identity : String → Option Identity

module _ (s : Serde) (i : IdentitySerde) (t : TextSerde) where
  -- The payload of an announcement, which goes to the broadcast address; `none` for an error.
  unfoldable pub announce : ℕ → Identity → Option (List ℕ)
  unfolding identity
  announce counter mine = s.to_vec (identity s i counter mine).0

  -- An identity in a packet, or a bare one.
  unfoldable pub parsed : String → Option Identity
  parsed text = elim (t.packet text) [
    | none ↦ t.identity text
    | some p ↦ if str_eq p.ptype type_identity then i.from_value p.body else t.identity text
  ]

  unfoldable pub wanted : String → String → Identity → Option PeerAnnouncement
  wanted self_device_id ip theirs =
      if str_eq theirs.device_id self_device_id
      then none
      else if theirs.tcp_source_port == 0
      then none
      else some (record { ip = ip; identity = theirs })

  -- One datagram, which the buffer cuts off; `none` when it is skipped.
  unfoldable pub heard : String → String → List ℕ → Option PeerAnnouncement
  unfolding parsed wanted
  heard self_device_id ip [] = none
  heard self_device_id ip (b ∷ bs) = elim (t.from_utf8 (take max_datagram (b ∷ bs))) [
    | none ↦ none
    | some text ↦ elim (parsed text) [ none ↦ none | some theirs ↦ wanted self_device_id ip theirs ]
  ]

  -- `none` when nothing that has come is an announcement: the loop waits for more.
  unfoldable pub recv_one : String → List Datagram → Option (PeerAnnouncement × List Datagram)
  unfolding heard
  recv_one self_device_id [] = none
  recv_one self_device_id (failed ∷ rest) = recv_one self_device_id rest
  recv_one self_device_id (received ip bytes ∷ rest) =
      let later = recv_one self_device_id rest in
      elim (heard self_device_id ip bytes) [ none ↦ later | some a ↦ some (a, rest) ]
