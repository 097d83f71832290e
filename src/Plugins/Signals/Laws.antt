-- ===== src/Plugins/Signals/Laws.antt =====
-- What the plugins for pings, rings and notifications promise.
use handfast.Base.{
  ℕ, String, true, false, Option, none, some, [], ◌∷◌, ◌≡◌, refl, Assoc, lookup, remove,
  lookup-remove, str_eq, str_eq_iff, if◌then◌else◌,
}
use handfast.Json.{Value}
use handfast.Protocol.Types.{type_ping, type_notification_request}
use handfast.Protocol.Packet.{Packet, new}
use handfast.Plugins.Reply.{Reply, reply_with, silent, text_or_empty}
use handfast.Plugins.Signals.{ping_handle, act, notifications_handle}

-- One packet, of this type.
abbrev pub IsOne : String → Reply → Type 0
IsOne ptype r = (q : Packet) × (r.packets ≡ q ∷ []) × (q.ptype ≡ ptype)

answer-IsOne :
    (now : ℕ) (last : Option ℕ) (p : Packet) (c : ℕ)
    → p.ptype ≡ type_ping
    → ((ping_handle now last p c).0 ≡ some now) × IsOne type_ping (ping_handle now last p c).1
unfolding ping_handle reply_with new
answer-IsOne now last p c t =
    let e : str_eq p.ptype type_ping ≡ true = (str_eq_iff p.ptype type_ping).1 t in
    rw (e, ping_handle) (refl, (_, refl, refl))

-- A ping is answered by exactly one packet, and a peer that runs the same plugin answers that answer
-- by exactly one ping again: the exchange does not end by itself.
pub ping_echoes :
    (now later : ℕ) (last other : Option ℕ) (p : Packet) (c d : ℕ)
    → p.ptype ≡ type_ping
    → (q : Packet) × ((ping_handle now last p c).1.packets ≡ q ∷ [])
      × IsOne type_ping (ping_handle later other q d).1
ping_echoes now later last other p c d t =
    let (_, (q, one, ping)) = answer-IsOne now last p c t in
    (q, one, (answer-IsOne later other q d ping).1)

request_acts :
    (ids : Assoc String) (p : Packet) (c : ℕ)
    → p.ptype ≡ type_notification_request
    → notifications_handle ids p c ≡ (act ids p.body, silent c)
unfolding notifications_handle
request_acts ids p c t = rw (t, notifications_handle) refl

act_dismiss :
    (ids : Assoc String) (body : Value) (key : String)
    → text_or_empty "action" body ≡ "dismiss"
    → text_or_empty "key" body ≡ key
    → str_eq key "" ≡ false
    → act ids body ≡ remove key ids
unfolding act
act_dismiss ids body key a k n = rw (a, k, n, act) refl

-- A dismissal forgets exactly the notification it names, and is not answered.
pub notifications_dismissed :
    (ids : Assoc String) (p : Packet) (c : ℕ) (key other : String)
    → p.ptype ≡ type_notification_request
    → text_or_empty "action" p.body ≡ "dismiss"
    → text_or_empty "key" p.body ≡ key
    → str_eq key "" ≡ false
    → ((notifications_handle ids p c).1 ≡ silent c)
      × (lookup other (notifications_handle ids p c).0
          ≡ (if str_eq key other then none else lookup other ids))
notifications_dismissed ids p c key other t a k n =
    rw (request_acts ids p c t, act_dismiss ids p.body key a k n)
      (refl, lookup-remove key other ids)
