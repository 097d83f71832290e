-- ===== src/Daemon/Handshake/Examples.antt =====
-- A phone dials a laptop. The serializers are those of one device: the phone's identity is written as
-- null, and a hello as a brace with its id in unary digits.
use handfast.Base.{
  ℕ, zero, suc, ℤ, pos, String, Option, none, some, List, [], ◌∷◌, ◌++◌, ◌≡◌, ◌≢◌, refl, true,
  false, length, Free, Chunked, concat, Bool-cases, inl, inr, str_eq, str_eq_iff, ap, if◌then◌else◌,
  arith, ◌∙◌, position,
}
use handfast.Json.{Value, Fields, null, unwrap_or}
use handfast.Device.State.{Identity}
use handfast.Device.Links.{shell_identity}
use handfast.Protocol.Types.{type_identity}
use handfast.Protocol.Packet.{Packet, new}
use handfast.Protocol.Frame.{Serde, Reader, encode_into}
use handfast.Protocol.Frame.RoundTrip.{IsCompact}
use handfast.Daemon.Handshake.{
  Peer, IdentitySerde, ok, read_plaintext_identity, accept_control, identity, dial_line,
}
use handfast.Daemon.Handshake.Agreement.{accept_control-agrees}
use handfast.Daemon.Handshake.Dialled.{IsObject, IsFaithful, IsOpen, accept_control-dial}

abbrev phone : Identity
phone = shell_identity "phone" "Ada's phone" "phone"

abbrev laptop : Identity
laptop = shell_identity "laptop" "Ada's laptop" "laptop"

abbrev identities : IdentitySerde
identities = record { to_value = λ _. some null; from_value = λ _. some phone }

phone-IsFaithful : IsFaithful identities phone
phone-IsFaithful = record { value = null; written = refl; reads = refl }

abbrev digits : ℕ → List ℕ
digits zero = []
digits (suc n) = 49 ∷ digits n

abbrev digits_in : List ℕ → ℕ
digits_in [] = 0
digits_in (_ ∷ ds) = length ds

abbrev hello : ℕ → Packet
hello n = record {
  id = pos n;
  ptype = type_identity;
  body = null;
  payload_size = none;
  payload_transfer_info = none;
}

abbrev hello_to_vec : ℤ → String → Value → Option ℤ → Option Fields → Option (List ℕ)
hello_to_vec (pos n) t null none none =
    if str_eq t type_identity then some (123 ∷ digits n) else none
hello_to_vec _ _ _ _ _ = none

abbrev hellos : Serde
hellos = record {
  to_vec = λ p. hello_to_vec p.id p.ptype p.body p.payload_size p.payload_transfer_info;
  from_slice = λ json. some (hello (digits_in json));
}

digits-Free : (n : ℕ) → Free 10 (digits n)
digits-Free zero = tt
digits-Free (suc n) = (omega arith, digits-Free n)

length-digits : (n : ℕ) → length (digits n) ≡ n
length-digits zero = refl
length-digits (suc n) = ap suc (length-digits n)

hello_to_vec-written :
    (i : ℤ) (t : String) (b : Value) (s : Option ℤ) (f : Option Fields) (json : List ℕ)
    → hello_to_vec i t b s f ≡ some json
    → (n : ℕ) × (json ≡ 123 ∷ digits n)
      × (hello n
          ≡ record { id = i; ptype = t; body = b; payload_size = s; payload_transfer_info = f })
hello_to_vec-written (pos n) t null none none json e = elim (Bool-cases (str_eq t type_identity)) [
  | inl h ↦
      let e' : some (123 ∷ digits n) ≡ some json = rw h at e in
      let et : t ≡ type_identity = (str_eq_iff t type_identity).0 h in (n, cc, rw (et) refl)
  | inr h ↦ let e' : none ≡ some json = rw h at e in cc
]
hello_to_vec-written _ _ _ _ _ json e = cc

written :
    (p : Packet) (json : List ℕ)
    → hellos.to_vec p ≡ some json
    → (n : ℕ) × (json ≡ 123 ∷ digits n) × (hello n ≡ p)
written p json e =
    hello_to_vec-written p.id p.ptype p.body p.payload_size p.payload_transfer_info json e

hellos-IsCompact : (p : Packet) → IsCompact hellos p
hellos-IsCompact p = record {
  parses = λ json e.
      let (n, ej, ep) = written p json e in
      rw (ej) (ap (λ k. some (hello k)) (length-digits n) ∙ ap some ep);
  one_line = λ json e. let (n, ej, _) = written p json e in rw (ej) (omega arith, digits-Free n);
}

hellos-IsObject : (p : Packet) → IsObject hellos p
hellos-IsObject p = record { opens = λ json e. let (n, ej, _) = written p json e in (digits n, ej) }

-- The phone's second hello arrives in two chunks, and a further byte after it.
abbrev wire : Reader
wire = (123 ∷ 49 ∷ []) ∷ (49 ∷ 10 ∷ 7 ∷ []) ∷ []

wire-Chunked : Chunked wire
wire-Chunked = ((λ e. cc), ((λ e. cc), tt))

abbrev peer : Peer
peer = record { is_silent = false; tls = λ _. some wire; writes = true; in_time = true }

laptop-IsOpen : IsOpen hellos identities peer 2 laptop
unfolding identity encode_into new unwrap_or
laptop-IsOpen = record {
  writes = refl;
  in_time = refl;
  hello = 123 ∷ 49 ∷ 49 ∷ 49 ∷ 10 ∷ [];
  encoded = refl;
}

phone_named : phone.device_id ≢ ""
phone_named e = cc

-- The phone's line, "{1", and the first bytes of TLS.
accept_control-dial_example :
    (rest : Reader) × (accept_control hellos identities peer 2 laptop
        ((123 ∷ 49 ∷ 10 ∷ []) ++ (22 ∷ 3 ∷ []))
      ≡ ok (phone, rest))
    × (concat rest ≡ 7 ∷ [])
unfolding identity encode_into new unwrap_or dial_line
accept_control-dial_example =
    accept_control-dial hellos identities peer 2 0 1 laptop phone (123 ∷ 49 ∷ 10 ∷ []) (22 ∷ 3 ∷ [])
      (123 ∷ 49 ∷ 49 ∷ 10 ∷ []) (7 ∷ []) wire (hellos-IsCompact _) (hellos-IsObject _)
      (hellos-IsCompact _) phone-IsFaithful laptop-IsOpen refl (omega arith) refl refl wire-Chunked
      refl phone_named

accept_control-agrees_example :
    (plain : Identity) × (rest : List ℕ) × (read_plaintext_identity hellos identities peer
        (123 ∷ 49 ∷ 10 ∷ 22 ∷ 3 ∷ [])
      ≡ ok (plain, rest))
    × (phone.device_id ≡ plain.device_id)
    × (phone.protocol_version ≡ plain.protocol_version)
    × (phone.device_id ≢ "")
unfolding accept_control position
accept_control-agrees_example =
    accept_control-agrees hellos identities peer 2 laptop phone (123 ∷ 49 ∷ 10 ∷ 22 ∷ 3 ∷ [])
      ((7 ∷ []) ∷ []) refl
