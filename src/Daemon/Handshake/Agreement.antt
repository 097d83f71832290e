-- ===== src/Daemon/Handshake/Agreement.antt =====
-- Which identity an accepted connection can have.
use handfast.Base.{
  ℕ, Bool, true, false, not, List, [], ◌==◌, ◌≡◌, ◌≢◌, refl, ap, subst, ◌∙◌, arith, str_eq,
  str_eq_iff, if◌then◌else◌,
}
use handfast.Device.State.{Identity}
use handfast.Protocol.Packet.{Packet}
use handfast.Protocol.Frame.{Serde, Reader, encode_into, read_from}
use handfast.Daemon.Handshake.{
  Attempt, HandshakeError, ok, err, ◌>>=◌, Peer, IdentitySerde, identity, introduced,
  read_plaintext_identity, exchange, cross_check, upgraded, accept_control, framed,
}

bind-ok :
    {A B : Type 0} {out : B} (first : Attempt A) (next : A → Attempt B)
    → (first >>= next) ≡ ok out
    → (a : A) × (first ≡ ok a) × (next a ≡ ok out)
bind-ok (err e) f h = cc
bind-ok (ok a) f h = (a, refl, h)

-- A check that was passed.
unless-ok :
    {A : Type 0} {out : A} (b : Bool) (e : HandshakeError) (next : Attempt A)
    → (if b then err e else next) ≡ ok out
    → (b ≡ false) × (next ≡ ok out)
unless-ok true e next h = cc
unless-ok false e next h = (refl, h)

cross_check-ok :
    (plain secure : Identity) {u : Unit {0}}
    → cross_check plain secure ≡ ok u
    → (secure.device_id ≡ plain.device_id) × (secure.protocol_version ≡ plain.protocol_version)
unfolding cross_check
cross_check-ok plain secure h =
    let (one, h1) = unless-ok (not (str_eq plain.device_id secure.device_id)) _ _ h in
    let (two, h2) = unless-ok (not (plain.protocol_version == secure.protocol_version)) _ _ h1 in
    (ground (arith, str_eq_iff plain.device_id secure.device_id), ground arith)

module _ (s : Serde) (i : IdentitySerde) where
  exchange-named :
      (peer : Peer) (hello : Packet) (inbound : Reader) (theirs : Identity) (rest : Reader)
      → exchange s i peer hello inbound ≡ ok (theirs, rest)
      → theirs.device_id ≢ ""
  unfolding exchange
  exchange-named peer hello inbound theirs rest h =
      let (_, _, h1) = bind-ok (framed (encode_into s hello [])) _ h in
      let (_, h2) = unless-ok (not peer.writes) _ _ h1 in
      let (_, h3) = unless-ok (not peer.in_time) _ _ h2 in
      let (out, _, h4) = bind-ok (framed (read_from s inbound)) _ h3 in
      let (found, _, h5) = bind-ok (introduced s i out.0) _ h4 in
      let (named, h6) = unless-ok (str_eq found.device_id "") _ _ h5 in
      λ empty. ground (arith, str_eq_iff found.device_id "")

  -- An inbound connection that is accepted belongs to the device, of the protocol version, that the
  -- peer named in plaintext before TLS, and the device has a name.
  pub accept_control-agrees :
      (peer : Peer) (counter : ℕ) (mine secure : Identity) (bytes : List ℕ) (inbound : Reader)
      → accept_control s i peer counter mine bytes ≡ ok (secure, inbound)
      → (plain : Identity) × (rest : List ℕ) × (read_plaintext_identity s i peer bytes
          ≡ ok (plain, rest))
        × (secure.device_id ≡ plain.device_id)
        × (secure.protocol_version ≡ plain.protocol_version)
        × (secure.device_id ≢ "")
  unfolding accept_control
  accept_control-agrees peer counter mine secure bytes inbound h =
      let (plain, read, h1) = bind-ok (read_plaintext_identity s i peer bytes) _ h in
      let (raw, _, h2) = bind-ok (upgraded peer plain.1) _ h1 in
      let (found, exchanged, h3) =
        bind-ok (exchange s i peer (identity s i counter mine).0 raw) _ h2 in
      let (_, checked, h4) = bind-ok (cross_check plain.0 found.0) _ h3 in
      let same : found ≡ (secure, inbound) = cc in
      let (id, version) =
        cross_check-ok plain.0 secure
          (subst (λ (f : Identity × Reader). cross_check plain.0 f.0 ≡ ok _) same checked) in
      (
        plain.0,
        plain.1,
        read,
        id,
        version,
        exchange-named peer _ raw secure inbound (exchanged ∙ ap ok same),
      )
