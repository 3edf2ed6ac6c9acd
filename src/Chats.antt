-- ===== src/Chats.antt =====
-- apps/api/src/chats/chat.service.ts: rooms and messages.
pub mod Messages
use gamja_market.Base.{
  ℕ, Bool, true, false, ◌&&◌, ◌||◌, not, Option, none, some, List, [], ◌∷◌, map, ◌==◌, leb, ltb,
  take, is_some, if◌then◌else◌,
}
use gamja_market.Base.Text.{Text, text_eq, trim, to_string}
use gamja_market.Schema.{
  TradeStatus, is_active, Product, Trade, ChatRoom, ChatParticipant, ChatMessage, Db, find_first,
  find_many, sort_by, update_many, count,
}
use gamja_market.Schema.Action.{
  Action, Void, Error, Result, ok, err, pure, gets, or_raise, raise, raise_if, ◌>>=◌, ◌>>◌,
  not_found, forbidden, conflict, p2002, p2025, chat_not_found, chat_blocked, product_not_found,
  cannot_chat_on_own_product, message_id_conflict,
}
use gamja_market.Safety.{is_blocked}

-- The participant row of a user in a room.
abbrev pub is_member : ℕ → ℕ → ChatParticipant → Bool
is_member room_id user p = p.chat_room_id == room_id && p.user_id == user

abbrev pub is_room_of : ℕ → Db → ChatRoom → Bool
is_room_of user db r = is_some (find_first (is_member r.id user) db.participants)

-- `room.buyerId === userId ? room.sellerId : room.buyerId`
abbrev pub other_of : ℕ → ChatRoom → ℕ
other_of user r = if r.buyer_id == user then r.seller_id else r.buyer_id

unfoldable pub access : ℕ → ℕ → Action ChatRoom
access id user = do
  found ← gets λ db. find_first (λ r. r.id == id && is_room_of user db r) db.rooms
  room ← or_raise (not_found chat_not_found) found
  is_closed ← gets (is_blocked user (other_of user room))
  raise_if is_closed (forbidden chat_blocked)
  pure room

abbrev pub is_same_room : ℕ → ℕ → ℕ → ChatRoom → Bool
is_same_room product_id buyer_id seller_id r =
    r.product_id == product_id && (r.buyer_id == buyer_id && r.seller_id == seller_id)

abbrev pub new_member : ℕ → ℕ → ChatParticipant
new_member room_id user = record { chat_room_id = room_id; user_id = user; last_read_at = none }

abbrev pub new_room : ℕ → ℕ → ℕ → ℕ → ℕ → ChatRoom
new_room now id product_id buyer_id seller_id = record {
  id = id;
  product_id = product_id;
  buyer_id = buyer_id;
  seller_id = seller_id;
  updated_at = now;
}

-- `prisma.chatRoom.upsert` with an empty update. The `updatedAt` of a room that is there is set by the
-- client whenever it updates a row; an empty update writes nothing.
unfoldable pub find_or_create_room : ℕ → ℕ → ℕ → ℕ → ℕ → Action ChatRoom
find_or_create_room now id product_id buyer_id seller_id db =
    elim (find_first (is_same_room product_id buyer_id seller_id) db.rooms) [
      | some r ↦ (ok r, db)
      | none ↦
          let room = new_room now id product_id buyer_id seller_id in
          (
            ok room,
            record db {
              rooms = room ∷ db.rooms;
              participants = new_member id buyer_id ∷ new_member id seller_id ∷ db.participants;
            },
          )
    ]

unfoldable pub create : ℕ → ℕ → ℕ → ℕ → Action ChatRoom
create now id product_id user = do
  found ← gets λ db. find_first (λ p. p.id == product_id && is_active p.status) db.products
  product ← or_raise (not_found product_not_found) found
  raise_if (product.author_id == user) (conflict cannot_chat_on_own_product)
  is_closed ← gets (is_blocked user product.author_id)
  raise_if is_closed (forbidden chat_blocked)
  find_or_create_room now id product_id user product.author_id

-- `createdAt: { gt: lastReadAt }`, when there is such a time
abbrev pub is_after : Option ℕ → ChatMessage → Bool
is_after none m = true
is_after (some at) m = ltb at m.created_at

abbrev pub read_at : Option ChatParticipant → Option ℕ
read_at none = none
read_at (some p) = p.last_read_at

unfoldable pub unread_count : ℕ → ChatRoom → Db → ℕ
unread_count user room db =
    let at = read_at (find_first (is_member room.id user) db.participants) in
    count (λ m. m.chat_room_id == room.id && (not (m.author_id == user) && is_after at m))
      db.messages

abbrev pub is_newer_message : ChatMessage → ChatMessage → Bool
is_newer_message a b = leb b.created_at a.created_at

abbrev pub is_older_message : ChatMessage → ChatMessage → Bool
is_older_message a b = leb a.created_at b.created_at

abbrev pub is_newer_room : ChatRoom → ChatRoom → Bool
is_newer_room a b = leb b.updated_at a.updated_at

-- An entry of `list`. The product is its row: the answer has some of its columns.
pub record ChatSummary : Type 0 where
  pub id : ℕ
  pub other_user_id : ℕ
  pub product : Option Product
  pub latest_message : List ChatMessage
  pub unread_count : ℕ

unfoldable pub summary_of : ℕ → Db → ChatRoom → ChatSummary
summary_of user db room = record {
  id = room.id;
  other_user_id = other_of user room;
  product = find_first (λ p. p.id == room.product_id) db.products;
  latest_message =
      take 1 (sort_by is_newer_message (find_many (λ m. m.chat_room_id == room.id) db.messages));
  unread_count = unread_count user room db;
}

-- The rooms of `list`: `continue` passes over a room with a user that is blocked.
unfoldable pub open_rooms : ℕ → Db → List ChatRoom
open_rooms user db =
    find_many (λ r. not (is_blocked user (other_of user r) db))
      (sort_by is_newer_room (find_many (is_room_of user db) db.rooms))

unfoldable pub list : ℕ → Action (List ChatSummary)
list user = gets λ db. map (summary_of user db) (open_rooms user db)

-- The answer of `detail`: the room with its product, participants, messages and newest trade.
pub record ChatDetail : Type 0 where
  pub room : ChatRoom
  pub viewer_id : ℕ
  pub product : Option Product
  pub participants : List ChatParticipant
  pub messages : List ChatMessage
  pub trade : List Trade

abbrev pub as_read : ℕ → ChatParticipant → ChatParticipant
as_read now p = record p { last_read_at = some now }

-- `prisma.chatParticipant.update({ where: { chatRoomId_userId }, data: { lastReadAt } })`
unfoldable pub mark_read : ℕ → ℕ → ℕ → Action Void
mark_read now room_id user db = elim (find_first (is_member room_id user) db.participants) [
  | none ↦ (err p2025, db)
  | some p ↦ (
    ok tt,
    record db { participants = update_many (is_member room_id user) (as_read now) db.participants },
  )
]

-- `where: { createdAt: { lte: viewedAt } }, orderBy: { createdAt: 'asc' }, take: 100`
unfoldable pub messages_until : ℕ → ℕ → Db → List ChatMessage
messages_until now room_id db = take 100 (
    sort_by is_older_message
      (find_many (λ m. m.chat_room_id == room_id && leb m.created_at now) db.messages))

abbrev pub is_newer_trade : Trade → Trade → Bool
is_newer_trade a b = leb b.updated_at a.updated_at

-- The room is read again by its id, which is unique, after `access` has read it.
unfoldable pub detail : ℕ → ℕ → ℕ → Action ChatDetail
detail now id user = do
  room ← access id user
  before ← gets λ db. db
  mark_read now id user
  trade ← gets λ db. take 1 (
      sort_by is_newer_trade (
        find_many
          (λ t.
            t.product_id == room.product_id
            && (t.buyer_id == room.buyer_id && t.seller_id == room.seller_id))
          db.trades))
  pure (record {
    room = room;
    viewer_id = user;
    product = find_first (λ p. p.id == room.product_id) before.products;
    participants = find_many (λ p. p.chat_room_id == id) before.participants;
    messages = messages_until now id before;
    trade = trade;
  })

abbrev pub new_message : ℕ → ℕ → ℕ → ℕ → Text → ChatMessage
new_message now message_id room_id author_id body = record {
  id = message_id;
  chat_room_id = room_id;
  author_id = author_id;
  body = body;
  created_at = now;
}

-- `prisma.chatMessage.create({ data })`: the id is unique.
unfoldable pub create_message : ChatMessage → Action Void
create_message m db = elim (find_first (λ r. r.id == m.id) db.messages) [
  | some r ↦ (err p2002, db)
  | none ↦ (ok tt, record db { messages = m ∷ db.messages })
]

abbrev pub touch_room : ℕ → ChatRoom → ChatRoom
touch_room now r = record r { updated_at = now }

-- `prisma.chatRoom.update({ where: { id }, data: { updatedAt } })`
unfoldable pub update_room : ℕ → ℕ → Action Void
update_room now id db = elim (find_first (λ r. r.id == id) db.rooms) [
  | none ↦ (err p2025, db)
  | some r ↦ (ok tt, record db { rooms = update_many (λ r. r.id == id) (touch_room now) db.rooms })
]

-- The `try` of `send`.
unfoldable pub store_message : ℕ → ChatMessage → Action ChatMessage
store_message now m = do create_message m; update_room now m.chat_room_id; pure m

abbrev pub is_same_message : ChatMessage → ChatMessage → Bool
is_same_message m r =
    r.chat_room_id == m.chat_room_id && (r.author_id == m.author_id && text_eq r.body m.body)

-- The `catch` of `send`, by the message that has the id.
unfoldable pub resend : ChatMessage → Error → Option ChatMessage → Action ChatMessage
resend m e none db = (err e, db)
resend m e (some existing) db =
    if is_same_message m existing
    then (ok existing, db)
    else (err (conflict message_id_conflict), db)

unfoldable pub catch_send : ChatMessage → Result ChatMessage → Action ChatMessage
catch_send m (ok stored) db = (ok stored, db)
catch_send m (err e) db = resend m e (find_first (λ r. r.id == m.id) db.messages) db

unfoldable pub try_send : ℕ → ChatMessage → Action ChatMessage
try_send now m db = let (r, db') = store_message now m db in catch_send m r db'

-- `clientMessageId ?? randomUUID()` is the argument `message_id`.
unfoldable pub send : ℕ → ℕ → ℕ → Text → ℕ → Action ChatMessage
send now id user body message_id = do
  access id user
  try_send now (new_message now message_id id user (trim body))
