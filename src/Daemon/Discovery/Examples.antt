-- ===== src/Daemon/Discovery/Examples.antt =====
-- A phone announces itself after a datagram that is no text and one of the laptop's own.
use handfast.Base.{
  String, none, some, List, [], ◌∷◌, ◌++◌, ◌≡◌, ◌≢◌, refl, arith, ◌==◌, length, str_eq, Option,
  if◌then◌else◌,
}
use handfast.Json.{null, unwrap_or}
use handfast.Device.State.{Identity}
use handfast.Protocol.Packet.{Packet, new}
use handfast.Protocol.Frame.{Serde}
use handfast.Daemon.Handshake.{IdentitySerde, identity}
use handfast.Daemon.Handshake.Dialled.{IsFaithful}
use handfast.Daemon.Discovery.{Datagram, failed, received, TextSerde, announce, recv_one}
use handfast.Daemon.Discovery.Heard.{IsText, recv_one-foreign, recv_one-announce}

abbrev phone : Identity
phone = record {
  device_id = "phone";
  name = "Ada's phone";
  device_type = "phone";
  protocol_version = 8;
  incoming = [];
  outgoing = [];
  tcp_source_port = 1716;
}

abbrev laptop : Identity
laptop = record phone { device_id = "laptop"; name = "Ada's laptop"; device_type = "laptop" }

-- The identity of the phone is written as null, and its packet as two bytes.
abbrev identities : IdentitySerde
identities = record { to_value = λ _. some null; from_value = λ _. some phone }

phone-IsFaithful : IsFaithful identities phone
phone-IsFaithful = record { value = null; written = refl; reads = refl }

abbrev hellos : Serde
hellos = record { to_vec = λ _. some (123 ∷ 125 ∷ []); from_slice = λ _. none }

abbrev hello : Packet
hello = (identity hellos identities 4 phone).0

abbrev packet_of : String → Option Packet
packet_of text = if str_eq text "phone" then some hello else none

-- Two bytes are the phone's packet, three the laptop's bare identity, and all else is no text.
abbrev texts : TextSerde
texts = record {
  from_utf8 = λ bytes.
      if length bytes == 2 then some "phone" else if length bytes == 3 then some "laptop" else none;
  packet = packet_of;
  identity = λ _. some laptop;
}

hello-IsText : IsText hellos texts hello
unfolding identity new unwrap_or
hello-IsText = record {
  text = λ _. "phone";
  reads = λ json e. let same : 123 ∷ 125 ∷ [] ≡ json = cc in rw (← same) refl;
  parses = λ json e. refl;
  not_empty = λ e. cc;
}

abbrev junk : List Datagram
junk = received "10.0.0.9" (255 ∷ []) ∷ failed ∷ received "10.0.0.1" (1 ∷ 2 ∷ 3 ∷ []) ∷ []

recv_one-announce_example :
    recv_one hellos identities texts "laptop" (junk ++ received "10.0.0.2" (123 ∷ 125 ∷ []) ∷ [])
    ≡ some (record { ip = "10.0.0.2"; identity = phone }, [])
unfolding recv_one announce
recv_one-announce_example =
    recv_one-announce hellos identities texts "laptop" "10.0.0.2" 4 phone (123 ∷ 125 ∷ []) junk []
      hello-IsText phone-IsFaithful refl (omega arith) (λ e. cc) (λ e. omega arith)
      (refl, (tt, (refl, tt)))

recv_one-foreign_example : (phone.device_id ≢ "laptop") × (phone.tcp_source_port ≢ 0)
unfolding recv_one identity new unwrap_or
recv_one-foreign_example =
    recv_one-foreign hellos identities texts "laptop" (received "10.0.0.2" (123 ∷ 125 ∷ []) ∷ []) []
      (record { ip = "10.0.0.2"; identity = phone }) refl
