-- ===== src/Chats/Messages.antt =====
-- Sending the messages of apps/api/src/chats/chat.service.ts.
use gamja_market.Base.{
  ℕ, ◌≡◌, refl, sym, ap, ◌∙◌, Bool, true, false, ◌&&◌, none, some, List, [], ◌∷◌, arith, ◌==◌, ◌⊎◌,
  if◌then◌else◌, inl, inr, Bool-cases, Option-cases,
}
use gamja_market.Base.Text.{Text, text_eq_refl, trim}
use gamja_market.Schema.{ChatRoom, ChatMessage, Db, find_first, update_many}
use gamja_market.Schema.Action.{ok, err, p2002}
use gamja_market.Schema.Action.Laws.{Result-cases, bind-ok}
use gamja_market.Safety.{is_blocked}
use gamja_market.Chats.{
  access, send, try_send, store_message, create_message, update_room, catch_send, resend,
  new_message, is_same_message, is_room_of, other_of, touch_room,
}

-- What `access` has found: a room of the user with a user that is not blocked.
access-open :
    (id user : ℕ) (db : Db) (room : ChatRoom)
    → (access id user db).0 ≡ ok room
    → (find_first (λ r. r.id == id && is_room_of user db r) db.rooms ≡ some room)
      × (is_blocked user (other_of user room) db ≡ false)
unfolding access
access-open id user db room h =
    elim (Option-cases (find_first (λ r. r.id == id && is_room_of user db r) db.rooms)) [
      | inl e ↦ absurd (ground arith)
      | inr (r, e) ↦ elim (Bool-cases (is_blocked user (other_of user r) db)) [
        | inl b ↦ absurd (ground arith)
        | inr b ↦ (ground arith, ground arith)
      ]
    ]

access-reads : (id user : ℕ) (db : Db) → (access id user db).1 ≡ db
unfolding access
access-reads id user db =
    elim (Option-cases (find_first (λ r. r.id == id && is_room_of user db r) db.rooms)) [
      | inl e ↦ ground arith
      | inr (r, e) ↦ elim (Bool-cases (is_blocked user (other_of user r) db)) [
        | inl b ↦ ground arith
        | inr b ↦ ground arith
      ]
    ]

update_room-messages : (now id : ℕ) (db : Db) → (update_room now id db).1.messages ≡ db.messages
unfolding update_room
update_room-messages now id db = elim (Option-cases (find_first (λ r. r.id == id) db.rooms)) [
  | inl e ↦ ground arith
  | inr (r, e) ↦ ground arith
]

same_message_refl : (m : ChatMessage) → is_same_message m m ≡ true
same_message_refl m = ground (arith, text_eq_refl m.body)

-- A message with a new id is stored, even when the room cannot be updated after it.
store_message-new :
    (now : ℕ) (m : ChatMessage) (db : Db)
    → find_first (λ r. r.id == m.id) db.messages ≡ none
    → ((store_message now m db).1.messages ≡ m ∷ db.messages)
      × ((r : ChatMessage) → (store_message now m db).0 ≡ ok r → r ≡ m)
unfolding store_message create_message
store_message-new now m db e =
    let stored = record db { messages = m ∷ db.messages } in
    elim (Result-cases (update_room now m.chat_room_id stored).0) [
      | inl (x, q) ↦ (
        ground (arith, update_room-messages now m.chat_room_id stored),
        λ r h. absurd (ground arith),
      )
      | inr (x, q) ↦
          (ground (arith, update_room-messages now m.chat_room_id stored), λ r h. ground arith)
    ]

store_message-clash :
    (now : ℕ) (m r : ChatMessage) (db : Db)
    → find_first (λ x. x.id == m.id) db.messages ≡ some r
    → store_message now m db ≡ (err p2002, db)
unfolding store_message create_message
store_message-clash now m r db e = ground arith

-- What a message leaves that is sent, or that was sent before.
try_send-stored :
    (now : ℕ) (m r : ChatMessage) (db db' : Db)
    → try_send now m db ≡ (ok r, db')
    → (find_first (λ x. x.id == m.id) db'.messages ≡ some r) × (is_same_message m r ≡ true)
unfolding try_send catch_send resend find_first
try_send-stored now m r db db' h =
    elim (Option-cases (find_first (λ x. x.id == m.id) db.messages)) [
      | inl e ↦
          let (ms, same) = store_message-new now m db e in
          elim (Result-cases (store_message now m db).0) [
            | inl (x, q) ↦ ground (arith, ms, same_message_refl m)
            | inr (x, q) ↦ ground (arith, ms, same x q, same_message_refl m)
          ]
      | inr (x, e) ↦
          let clash = store_message-clash now m x db e in
          elim (Bool-cases (is_same_message m x)) [
            | inl y ↦ ground arith
            | inr y ↦ absurd (ground arith)
          ]
    ]

try_send-again :
    (now : ℕ) (m r : ChatMessage) (db : Db)
    → find_first (λ x. x.id == m.id) db.messages ≡ some r
    → is_same_message m r ≡ true
    → try_send now m db ≡ (ok r, db)
unfolding try_send catch_send resend
try_send-again now m r db e s = let clash = store_message-clash now m r db e in ground arith

-- Only the times of rooms change beside the messages.
pub record KeepsRooms (db db' : Db) : Type 0 where
  pub blocks : db'.blocks ≡ db.blocks
  pub participants : db'.participants ≡ db.participants
  pub rooms :
      (db'.rooms ≡ db.rooms)
      ⊎ ((id : ℕ) × (t : ℕ) × (db'.rooms ≡ update_many (λ r. r.id == id) (touch_room t) db.rooms))

store_message-KeepsRooms :
    (now : ℕ) (m : ChatMessage) (db : Db) → KeepsRooms db (store_message now m db).1
unfolding store_message create_message update_room
store_message-KeepsRooms now m db =
    elim (Option-cases (find_first (λ x. x.id == m.id) db.messages)) [
      | inr (x, e) ↦ record {
        blocks = ground arith;
        participants = ground arith;
        rooms = inl (ground arith);
      }
      | inl e ↦ elim (Option-cases (find_first (λ r. r.id == m.chat_room_id) db.rooms)) [
        | inl n ↦ record {
          blocks = ground arith;
          participants = ground arith;
          rooms = inl (ground arith);
        }
        | inr (r, n) ↦ record {
          blocks = ground arith;
          participants = ground arith;
          rooms = inr (m.chat_room_id, now, ground arith);
        }
      ]
    ]

try_send-state :
    (now : ℕ) (m : ChatMessage) (db : Db) → (try_send now m db).1 ≡ (store_message now m db).1
unfolding try_send catch_send resend
try_send-state now m db = ground arith

find_first-touched :
    (p q : ChatRoom → Bool) (t user : ℕ) (rs : List ChatRoom) (r : ChatRoom)
    → ((x : ChatRoom) → p (touch_room t x) ≡ p x)
    → find_first p rs ≡ some r
    → (r' : ChatRoom) × (find_first p (update_many q (touch_room t) rs) ≡ some r')
      × (other_of user r' ≡ other_of user r)
unfolding find_first update_many
find_first-touched p q t user [] r k h = absurd (ground arith)
find_first-touched p q t user (x ∷ rs) r k h = elim (Bool-cases (p x)) [
  | inl e ↦ (if q x then touch_room t x else x, ground (arith, k x), ground (arith, k x))
  | inr e ↦
      let (r', f, o) = find_first-touched p q t user rs r k (ground arith) in
      (r', ground (arith, k x, f), o)
]

access-ok :
    (id user : ℕ) (db : Db) (room : ChatRoom)
    → find_first (λ r. r.id == id && is_room_of user db r) db.rooms ≡ some room
    → is_blocked user (other_of user room) db ≡ false
    → access id user db ≡ (ok room, db)
unfolding access
access-ok id user db room e b = ground arith

blocked_same :
    (user other : ℕ) (db db' : Db)
    → db'.blocks ≡ db.blocks
    → is_blocked user other db' ≡ is_blocked user other db
unfolding is_blocked
blocked_same user other db db' e = rw e refl

access-again :
    (id user : ℕ) (db db' : Db) (room : ChatRoom)
    → KeepsRooms db db'
    → (access id user db).0 ≡ ok room
    → (room' : ChatRoom) × (access id user db' ≡ (ok room', db'))
access-again id user db db' room k h =
    let (found, free) = access-open id user db room h in
    let free' : (x : ChatRoom)
        → other_of user x ≡ other_of user room
        → is_blocked user (other_of user x) db' ≡ false =
      λ x o.
        blocked_same user (other_of user x) db db' k.blocks
        ∙ (ap (λ y. is_blocked user y db) o ∙ free) in
    elim k.rooms [
      | inl same ↦
          (room, access-ok id user db' room (rw (k.participants, same) found) (free' room refl))
      | inr (i, t, touched) ↦
          let (room', f, o) =
            find_first-touched (λ r. r.id == id && is_room_of user db r) (λ r. r.id == i) t user
              db.rooms room (λ x. refl) found in
          (room', access-ok id user db' room' (rw (k.participants, touched) f) (free' room' o))
    ]

-- A message that was sent with an id is stored under it; sent again by the same user to the same room
-- with the same body and id, at whatever time, it gives the stored message and changes nothing.
pub send-replay :
    (now now' id user message_id : ℕ) (body : Text) (db db' : Db) (r : ChatMessage)
    → send now id user body message_id db ≡ (ok r, db')
    → (find_first (λ x. x.id == message_id) db'.messages ≡ some r)
      × (send now' id user body message_id db' ≡ (ok r, db'))
unfolding send
send-replay now now' id user message_id body db db' r h =
    elim (Result-cases (access id user db).0) [
      | inl (e, a) ↦ absurd (ground arith)
      | inr (room, a) ↦
          let m = new_message now message_id id user (trim body) in
          let again = new_message now' message_id id user (trim body) in
          let run : try_send now m db ≡ (ok r, db') =
            sym (
              rw (access-reads id user db) at
                (bind-ok (access id user) (λ room. try_send now m) db room a))
            ∙ h in
          let (found, same) = try_send-stored now m r db db' run in
          let keeps : KeepsRooms db db' =
            rw (sym (ap (λ x. x.1) run), try_send-state now m db)
              (store_message-KeepsRooms now m db) in
          let (room', a') = access-again id user db db' room keeps a in
          (
            found,
            bind-ok (access id user) (λ room. try_send now' again) db' room' (ap (λ x. x.0) a')
                ∙ (ap (try_send now' again) (access-reads id user db')
                    ∙ try_send-again now' again r db' found same),
          )
    ]
