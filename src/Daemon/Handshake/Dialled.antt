-- ===== src/Daemon/Handshake/Dialled.antt =====
-- A device that dials and introduces itself is accepted.
use handfast.Base.{
  ℕ, suc, ◌+◌, ◌≤◌, ◌<◌, true, false, Option, none, some, List, [], ◌∷◌, ◌++◌, ◌==◌, ◌≡◌, ◌≢◌, refl,
  sym, ap, subst, ◌∙◌, arith, str_eq, str_eq_iff, length, leb, length-append, append-nil,
  append_assoc, concat, Chunked, Free,
}
use handfast.Json.{Value, unwrap_or}
use handfast.Device.State.{Identity}
use handfast.Protocol.Types.{max_packet_len}
use handfast.Protocol.Packet.{Packet, new}
use handfast.Protocol.Frame.{Serde, Reader, Result, encode_into}
use handfast.Protocol.Frame.RoundTrip.{IsCompact, read_from-encode_into}
use handfast.Daemon.Handshake.{
  Attempt, malformed_packet, ok, err, ◌>>=◌, Peer, IdentitySerde, identity, introduced, first_line,
  read_line, read_plaintext_identity, exchange, cross_check, upgraded, accept_control, dial_line,
}

-- What the program relies on in serde_json: this packet is written as an object, and this identity
-- reads back.
pub record IsObject (s : Serde) (p : Packet) : Type 0 where
  pub opens : (json : List ℕ) → s.to_vec p ≡ some json → (rest : List ℕ) × (json ≡ 123 ∷ rest)

pub record IsFaithful (i : IdentitySerde) (mine : Identity) : Type 0 where
  pub value : Value
  pub written : i.to_value mine ≡ some value
  pub reads : i.from_value value ≡ some mine

-- Nothing went wrong on the acceptor's side of the connection.
pub record IsOpen (s : Serde) (i : IdentitySerde) (peer : Peer) (counter : ℕ) (mine : Identity)
    : Type 0 where
  pub writes : peer.writes ≡ true
  pub in_time : peer.in_time ≡ true
  pub hello : List ℕ
  pub encoded : encode_into s (identity s i counter mine).0 [] ≡ Result.ok hello

-- A step that went well is followed by the next one.
after :
    {A B : Type 0} {first : Attempt A} {a : A} (next : A → Attempt B)
    → first ≡ ok a
    → (first >>= next) ≡ next a
after next e = ap (λ x. x >>= next) e

upgraded-tls :
    (peer : Peer) (raw : List ℕ) (inbound : Reader)
    → peer.tls raw ≡ some inbound
    → upgraded peer raw ≡ ok inbound
upgraded-tls peer raw inbound e = rw (e, upgraded) refl

cross_check-same : (mine : Identity) → cross_check mine mine ≡ ok tt
unfolding cross_check
cross_check-same mine =
    let same : str_eq mine.device_id mine.device_id ≡ true =
      (str_eq_iff mine.device_id mine.device_id).1 refl in
    let version : (mine.protocol_version == mine.protocol_version) ≡ true = ground arith in
    rw (same) (rw (version) refl)

module _ (s : Serde) (i : IdentitySerde) where
  -- The loop stops at the newline.
  read_line-stops :
      (peer : Peer) (line json more : List ℕ)
      → Free 10 json
      → length line + length json < max_packet_len
      → read_line s i peer line false (json ++ 10 ∷ more)
        ≡ (first_line s i (line ++ json) >>= λ theirs. ok (theirs, more))
  unfolding read_line
  read_line-stops peer line [] more f n =
      let short : leb max_packet_len (length line) ≡ false = ground arith in
      rw (short, append-nil line) refl
  read_line-stops peer line (b ∷ json) more f n =
      let short : leb max_packet_len (length line) ≡ false = ground arith in
      let other : (b == 10) ≡ false = ground (arith, f.0) in
      rw (short, other)
        (read_line-stops peer (line ++ b ∷ []) json more f.1
            (omega (arith, length-append line (b ∷ [])))
          ∙ ap (λ l. first_line s i l >>= λ theirs. ok (theirs, more))
              (append_assoc line (b ∷ []) json))

  -- A packet with an identity is one that introduces it.
  introduced-identity :
      (counter : ℕ) (mine : Identity)
      → IsFaithful i mine
      → introduced s i (identity s i counter mine).0 ≡ ok mine
  unfolding introduced identity new unwrap_or
  introduced-identity counter mine laws = rw (laws.written) (rw (laws.reads) refl)

  dial_line-ok :
      (counter : ℕ) (mine : Identity) (line : List ℕ)
      → dial_line s i counter mine ≡ ok line
      → (json : List ℕ) × (s.to_vec (identity s i counter mine).0 ≡ some json)
        × (line ≡ json ++ 10 ∷ [])
  unfolding dial_line
  dial_line-ok counter mine line h = written (s.to_vec (identity s i counter mine).0) h
    where
      written :
          (o : Option (List ℕ))
          → elim o [ none ↦ err malformed_packet | some json ↦ ok (json ++ 10 ∷ []) ] ≡ ok line
          → (json : List ℕ) × (o ≡ some json) × (line ≡ json ++ 10 ∷ [])
      written none h = cc
      written (some json) h = (json, refl, cc)

  first_line-introduced :
      (p : Packet) (json : List ℕ) (theirs : Identity)
      → s.from_slice json ≡ some p
      → introduced s i p ≡ ok theirs
      → first_line s i json ≡ ok theirs
  unfolding first_line
  first_line-introduced p json theirs e h = rw (e, first_line) h

  -- The acceptor reads the line of the dialer, and not a byte of what follows.
  read_plaintext_identity-dial_line :
      (peer : Peer) (counter : ℕ) (theirs : Identity) (line raw : List ℕ)
      → IsCompact s (identity s i counter theirs).0
      → IsObject s (identity s i counter theirs).0
      → IsFaithful i theirs
      → dial_line s i counter theirs ≡ ok line
      → length line ≤ max_packet_len
      → read_plaintext_identity s i peer (line ++ raw) ≡ ok (theirs, raw)
  unfolding read_plaintext_identity read_line
  read_plaintext_identity-dial_line peer counter theirs line raw c o f d n =
      let (json, e, el) = dial_line-ok counter theirs line d in
      let (cs, brace) = o.opens json e in
      let free : Free 10 (123 ∷ cs) = subst (Free 10) brace (c.one_line json e) in
      let whole : line ++ raw ≡ 123 ∷ (cs ++ 10 ∷ raw) =
        ap (λ l. l ++ raw) (el ∙ ap (λ l. l ++ 10 ∷ []) brace)
        ∙ ap (◌∷◌ 123) (append_assoc cs (10 ∷ []) raw) in
      let size : length line ≡ suc (length (cs ++ 10 ∷ [])) =
        ap length (el ∙ ap (λ l. l ++ 10 ∷ []) brace) in
      ap (read_line s i peer [] true) whole
      ∙ opened peer (cs ++ 10 ∷ raw)
      ∙ read_line-stops peer (123 ∷ []) cs raw free.1
          (omega (arith, size, length-append cs (10 ∷ [])))
      ∙ ap (λ (a : Attempt Identity). a >>= λ x. ok (x, raw))
          (first_line-introduced (identity s i counter theirs).0 (123 ∷ cs) theirs
            (sym (ap s.from_slice brace) ∙ c.parses json e) (introduced-identity counter theirs f))
    where
      opened :
          (peer : Peer) (bytes : List ℕ)
          → read_line s i peer [] true (123 ∷ bytes) ≡ read_line s i peer (123 ∷ []) false bytes
      opened peer bytes = refl

  exchange-hello :
      (peer : Peer) (own_counter counter : ℕ) (mine theirs : Identity) (frame more : List ℕ)
      (inbound : Reader)
      → IsCompact s (identity s i counter theirs).0
      → IsFaithful i theirs
      → IsOpen s i peer own_counter mine
      → encode_into s (identity s i counter theirs).0 [] ≡ Result.ok frame
      → Chunked inbound
      → concat inbound ≡ frame ++ more
      → theirs.device_id ≢ ""
      → (rest : Reader) × (exchange s i peer (identity s i own_counter mine).0 inbound
          ≡ ok (theirs, rest))
        × (concat rest ≡ more)
  unfolding exchange
  exchange-hello peer own_counter counter mine theirs frame more inbound c f o e h w n =
      let (rest, found, follows, _) = read_from-encode_into s _ frame more inbound c e h w in
      let named : str_eq theirs.device_id "" ≡ false =
        ground (arith, str_eq_iff theirs.device_id "") in
      (
        rest,
        rw (o.encoded) (
            rw (o.writes, o.in_time)
              (rw (found) (rw (introduced-identity counter theirs f) (rw (named) refl)))),
        follows,
      )

  -- A device that dials is accepted as the one it is: if the line that it writes is not too long, its
  -- identity has an id, the connection stays open and the TLS handshake succeeds, and serde_json writes
  -- the dialer's identity and its two identity packets in a form that reads back, without a newline and
  -- the first one as an object, then the acceptor reads the line and not a byte of TLS that follows, and
  -- returns the dialer's identity, whatever the chunks in which the encrypted one arrives; what the
  -- dialer sends after it is not lost.
  pub accept_control-dial :
      (peer : Peer) (own_counter counter later : ℕ) (mine theirs : Identity)
      (line raw frame more : List ℕ) (inbound : Reader)
      → IsCompact s (identity s i counter theirs).0
      → IsObject s (identity s i counter theirs).0
      → IsCompact s (identity s i later theirs).0
      → IsFaithful i theirs
      → IsOpen s i peer own_counter mine
      → dial_line s i counter theirs ≡ ok line
      → length line ≤ max_packet_len
      → peer.tls raw ≡ some inbound
      → encode_into s (identity s i later theirs).0 [] ≡ Result.ok frame
      → Chunked inbound
      → concat inbound ≡ frame ++ more
      → theirs.device_id ≢ ""
      → (rest : Reader) × (accept_control s i peer own_counter mine (line ++ raw)
          ≡ ok (theirs, rest))
        × (concat rest ≡ more)
  unfolding accept_control
  accept_control-dial peer own_counter counter later mine theirs line raw frame more inbound c b c'
        f o d n t e h w named =
      let read = read_plaintext_identity-dial_line peer counter theirs line raw c b f d n in
      let (rest, done, follows) =
        exchange-hello peer own_counter later mine theirs frame more inbound c' f o e h w named in
      (
        rest,
        after _ read
            ∙ after _ (upgraded-tls peer raw inbound t)
            ∙ after _ done
            ∙ after _ (cross_check-same theirs),
        follows,
      )
