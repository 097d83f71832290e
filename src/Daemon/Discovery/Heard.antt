-- ===== src/Daemon/Discovery/Heard.antt =====
-- Which announcements are heard.
use handfast.Base.{
  ℕ, zero, suc, ◌≤◌, String, false, Option, none, some, List, [], ◌∷◌, ◌++◌, ◌==◌, take, length,
  str_eq, str_eq_iff, ◌≡◌, ◌≢◌, refl, ap, subst, ◌∙◌, arith, All, Bool-cases, inl, inr,
}
use handfast.Json.{unwrap_or}
use handfast.Protocol.Packet.{Packet, new}
use handfast.Protocol.Frame.{Serde}
use handfast.Device.State.{Identity}
use handfast.Daemon.Handshake.{IdentitySerde, identity}
use handfast.Daemon.Handshake.Dialled.{IsFaithful}
use handfast.Daemon.Discovery.{
  PeerAnnouncement, Datagram, failed, received, TextSerde, max_datagram, announce, parsed, wanted,
  heard, recv_one,
}

-- What the program relies on in the library: JSON is text, it is not empty, and a packet that was
-- serialized reads back from its text.
pub record IsText (s : Serde) (t : TextSerde) (p : Packet) : Type 0 where
  pub text : List ℕ → String
  pub reads : (json : List ℕ) → s.to_vec p ≡ some json → t.from_utf8 json ≡ some (text json)
  pub parses : (json : List ℕ) → s.to_vec p ≡ some json → t.packet (text json) ≡ some p
  pub not_empty : s.to_vec p ≢ some []

take_whole : (n : ℕ) (xs : List ℕ) → length xs ≤ n → take n xs ≡ xs
take_whole zero [] h = refl
take_whole zero (x ∷ xs) h = absurd (omega arith)
take_whole (suc n) [] h = refl
take_whole (suc n) (x ∷ xs) h = ap (◌∷◌ x) (take_whole n xs (omega arith))

module _ (s : Serde) (i : IdentitySerde) (t : TextSerde) where
  IsForeign : String → Option PeerAnnouncement → Type 0
  IsForeign self_device_id none = Unit
  IsForeign self_device_id (some a) =
      (a.identity.device_id ≢ self_device_id) × (a.identity.tcp_source_port ≢ 0)

  wanted-IsForeign :
      (self_device_id ip : String) (theirs : Identity)
      → IsForeign self_device_id (wanted s i t self_device_id ip theirs)
  unfolding wanted IsForeign
  wanted-IsForeign self_device_id ip theirs =
      elim (Bool-cases (str_eq theirs.device_id self_device_id)) [
        | inl e ↦ rw (e) tt
        | inr e ↦ elim (Bool-cases (theirs.tcp_source_port == 0)) [
          | inl z ↦ rw (e) (rw (z) tt)
          | inr z ↦ rw (e) (
              rw (z) (
                λ q. ground (arith, str_eq_iff theirs.device_id self_device_id),
                λ q. ground arith,
              ))
        ]
      ]

  heard-IsForeign :
      (self_device_id ip : String) (bytes : List ℕ)
      → IsForeign self_device_id (heard s i t self_device_id ip bytes)
  unfolding heard IsForeign
  heard-IsForeign self_device_id ip [] = tt
  heard-IsForeign self_device_id ip (b ∷ bs) = text_of (t.from_utf8 (take max_datagram (b ∷ bs)))
    where
      named :
          (o : Option Identity)
          → IsForeign self_device_id
              (elim o [ none ↦ none | some theirs ↦ wanted s i t self_device_id ip theirs ])
      named none = tt
      named (some theirs) = wanted-IsForeign self_device_id ip theirs

      text_of :
          (o : Option String)
          → IsForeign self_device_id (elim o [
            | none ↦ none
            | some text ↦ elim (parsed s i t text) [
              | none ↦ none
              | some theirs ↦ wanted s i t self_device_id ip theirs
            ]
          ])
      text_of none = tt
      text_of (some text) = named (parsed s i t text)

  -- An announcement that reaches the manager is not the daemon's own, and it names a port to dial,
  -- whatever the network sends.
  pub recv_one-foreign :
      (self_device_id : String) (ds rest : List Datagram) (a : PeerAnnouncement)
      → recv_one s i t self_device_id ds ≡ some (a, rest)
      → (a.identity.device_id ≢ self_device_id) × (a.identity.tcp_source_port ≢ 0)
  unfolding recv_one IsForeign
  recv_one-foreign self_device_id [] rest a h = cc
  recv_one-foreign self_device_id (failed ∷ ds) rest a h =
      recv_one-foreign self_device_id ds rest a h
  recv_one-foreign self_device_id (received ip bytes ∷ ds) rest a h =
      first (heard s i t self_device_id ip bytes) (heard-IsForeign self_device_id ip bytes)
        (recv_one-foreign self_device_id ds rest a) h
    where
      first :
          (o : Option PeerAnnouncement)
          → IsForeign self_device_id o
          → (recv_one s i t self_device_id ds ≡ some (a, rest)
              → (a.identity.device_id ≢ self_device_id) × (a.identity.tcp_source_port ≢ 0))
          → elim o [ none ↦ recv_one s i t self_device_id ds | some b ↦ some (b, ds) ]
            ≡ some (a, rest)
          → (a.identity.device_id ≢ self_device_id) × (a.identity.tcp_source_port ≢ 0)
      first none f later e = later e
      first (some b) f later e =
          let same : b ≡ a = cc in
          subst
            (λ (c : PeerAnnouncement).
              (c.identity.device_id ≢ self_device_id) × (c.identity.tcp_source_port ≢ 0))
            same f

  -- A datagram that the loop skips.
  abbrev pub IsSkipped : String → Datagram → Type 0
  IsSkipped self_device_id failed = Unit
  IsSkipped self_device_id (received ip bytes) = heard s i t self_device_id ip bytes ≡ none

  skipped :
      (self_device_id : String) (junk ds : List Datagram)
      → All (IsSkipped self_device_id) junk
      → recv_one s i t self_device_id (junk ++ ds) ≡ recv_one s i t self_device_id ds
  unfolding recv_one
  skipped self_device_id [] ds h = refl
  skipped self_device_id (failed ∷ junk) ds h = skipped self_device_id junk ds h.1
  skipped self_device_id (received ip bytes ∷ junk) ds h =
      rw (h.0, recv_one) (skipped self_device_id junk ds h.1)

  parsed-identity :
      (counter : ℕ) (theirs : Identity) (text : String)
      → IsFaithful i theirs
      → t.packet text ≡ some (identity s i counter theirs).0
      → parsed s i t text ≡ some theirs
  unfolding parsed identity new unwrap_or
  parsed-identity counter theirs text f e = rw (e, parsed) (rw (f.written) (rw (f.reads) refl))

  heard-announce :
      (self_device_id ip : String) (counter : ℕ) (theirs : Identity) (json : List ℕ)
      → IsText s t (identity s i counter theirs).0
      → IsFaithful i theirs
      → announce s i t counter theirs ≡ some json
      → length json ≤ max_datagram
      → theirs.device_id ≢ self_device_id
      → theirs.tcp_source_port ≢ 0
      → heard s i t self_device_id ip json ≡ some (record { ip = ip; identity = theirs })
  unfolding heard announce wanted
  heard-announce self_device_id ip counter theirs [] x f e n d p = absurd (x.not_empty e)
  heard-announce self_device_id ip counter theirs (b ∷ bs) x f e n d p =
      let other : str_eq theirs.device_id self_device_id ≡ false =
        ground (arith, str_eq_iff theirs.device_id self_device_id) in
      let port : (theirs.tcp_source_port == 0) ≡ false = ground arith in
      let read : t.from_utf8 (take max_datagram (b ∷ bs)) ≡ some (x.text (b ∷ bs)) =
        ap t.from_utf8 (take_whole max_datagram (b ∷ bs) n) ∙ x.reads (b ∷ bs) e in
      rw (read, heard)
        (rw (parsed-identity counter theirs (x.text (b ∷ bs)) f (x.parses (b ∷ bs) e))
          (rw (other) (rw (port) refl)))

  -- The announcement of another device is heard, with the address it came from and the identity that
  -- the device announced, if it fits the buffer, names a port, and only datagrams that are skipped came
  -- before it; the datagrams after it are left for later.
  pub recv_one-announce :
      (self_device_id ip : String) (counter : ℕ) (theirs : Identity) (json : List ℕ)
      (junk rest : List Datagram)
      → IsText s t (identity s i counter theirs).0
      → IsFaithful i theirs
      → announce s i t counter theirs ≡ some json
      → length json ≤ max_datagram
      → theirs.device_id ≢ self_device_id
      → theirs.tcp_source_port ≢ 0
      → All (IsSkipped self_device_id) junk
      → recv_one s i t self_device_id (junk ++ received ip json ∷ rest)
        ≡ some (record { ip = ip; identity = theirs }, rest)
  unfolding recv_one
  recv_one-announce self_device_id ip counter theirs json junk rest x f e n d p h =
      skipped self_device_id junk (received ip json ∷ rest) h
      ∙ rw (heard-announce self_device_id ip counter theirs json x f e n d p, recv_one) refl
