-- ===== src/Plugins/Share/RoundTrip.antt =====
-- What one device shares is what the plugin of the other queues.
use handfast.Base.{ℕ, String, false, some, List, [], ◌∷◌, ◌++◌, ◌≡◌, refl, str_eq, str_eq_iff}
use handfast.Json.{object, string, field, end, non_empty}
use handfast.Protocol.Packet.{new}
use handfast.Plugins.Reply.{silent}
use handfast.Plugins.Share.{
  ShareItem, url, text, classify, classify_fields, str_field, share_handle, send_url, send_text,
}

usable : (s : String) → str_eq s "" ≡ false → non_empty (some s) ≡ some s
unfolding non_empty
usable s n = rw n refl

named : (key s : String) → str_eq s "" ≡ false → str_field (field key (string s) end) key ≡ some s
unfolding str_field
named key s n = rw ((str_eq_iff key key).1 refl) (usable s n)

classify-url :
    (u : String)
    → str_eq u "" ≡ false
    → classify (object (field "url" (string u) end)) ≡ some (url u)
unfolding classify
classify-url u n = rw (named "url" u n, classify_fields) refl

classify-text :
    (t : String)
    → str_eq t "" ≡ false
    → classify (object (field "text" (string t) end)) ≡ some (text t)
unfolding classify
classify-text t n = rw (named "text" t n, classify_fields) refl

-- A link and then a text that are shared, neither of them empty, are queued in this order behind
-- what was pending, and nothing is answered.
pub share_handle-send :
    (u t : String) (pending : List ShareItem) (c d e : ℕ)
    → str_eq u "" ≡ false
    → str_eq t "" ≡ false
    → share_handle (share_handle pending (send_url u c).0 d).0 (send_text t (send_url u c).1).0 e
      ≡ ((pending ++ url u ∷ []) ++ text t ∷ [], silent e)
unfolding share_handle send_url send_text new
share_handle-send u t pending c d e nu nt = rw (classify-url u nu, classify-text t nt) refl
