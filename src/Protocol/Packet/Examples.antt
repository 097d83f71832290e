-- ===== src/Protocol/Packet/Examples.antt =====
-- The first packet of a counter.
use handfast.Base.{◌≡◌, pos, refl}
use handfast.Json.{null}
use handfast.Protocol.Packet.{Packet, new}

abbrev share : Packet
share = (new 4 "kdeconnect.share.request" null).0

first_test : share.id ≡ pos 5
unfolding new
first_test = refl
