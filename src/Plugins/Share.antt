-- ===== src/Plugins/Share.antt =====
-- crates/plugins/src/share.rs: shared links, texts and file announcements, queued in order.
pub mod RoundTrip
use handfast.Base.{ℕ, String, Option, none, some, List, [], ◌∷◌, ◌++◌, if◌then◌else◌, str_eq, not}
use handfast.Json.{
  Value, Fields, object, string, field, end, get_field, as_object, as_str, as_u64, non_empty, ◌>>=◌,
}
use handfast.Protocol.Types.{type_share}
use handfast.Protocol.Packet.{Packet, new}
use handfast.Plugins.Reply.{Handled, silent}

pub data ShareItem : Type 0 where
  url text : String → ShareItem
  file_meta : String → ℕ → ShareItem

unfoldable pub str_field : Fields → String → Option String
unfolding get_field as_str non_empty
str_field obj key = non_empty (get_field key obj >>= as_str)

-- `classify` on an object: a link first, then a text, then a file with its size.
unfoldable pub classify_fields : Fields → Option ShareItem
unfolding str_field get_field as_u64
classify_fields obj = elim (str_field obj "url") [
  | some u ↦ some (url u)
  | none ↦ elim (str_field obj "text") [
    | some t ↦ some (text t)
    | none ↦ str_field obj "filename" >>= λ name.
        get_field "fileSize" obj >>= as_u64 >>= λ size. some (file_meta name size)
  ]
]

unfoldable pub classify : Value → Option ShareItem
unfolding as_object classify_fields
classify body = as_object body >>= classify_fields

unfoldable pub queue_item : Option ShareItem → List ShareItem → List ShareItem
queue_item none pending = pending
queue_item (some item) pending = pending ++ item ∷ []

-- `SharePlugin::handle` on `pending_shares`
unfoldable pub share_handle : List ShareItem → Packet → ℕ → Handled (List ShareItem)
unfolding classify queue_item
share_handle pending p counter =
    if not (str_eq p.ptype type_share)
    then (pending, silent counter)
    else (queue_item (classify p.body) pending, silent counter)

-- What was queued, and the empty queue.
unfoldable pub take_pending : List ShareItem → List ShareItem × List ShareItem
take_pending pending = (pending, [])

unfoldable pub send_url : String → ℕ → Packet × ℕ
unfolding new
send_url u counter = new counter type_share (object (field "url" (string u) end))

unfoldable pub send_text : String → ℕ → Packet × ℕ
unfolding new
send_text t counter = new counter type_share (object (field "text" (string t) end))
