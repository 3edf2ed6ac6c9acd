-- ===== src/Tests/Chats.antt =====
-- The theorems on messages at the small market.
use gamja_market.Base.{◌≡◌, refl, ◌==◌, some, [], ◌∷◌}
use gamja_market.Base.Text.{text, trim}
use gamja_market.Schema.{ChatMessage, Db, find_first, update_many}
use gamja_market.Schema.Action.{ok}
use gamja_market.Safety.{is_blocked}
use gamja_market.Chats.{
  access, send, try_send, store_message, create_message, update_room, catch_send, new_message,
  new_member, new_room,
}
use gamja_market.Chats.Messages.{send-replay}
use gamja_market.Tests.Data.{reserved_market}

-- A room of the users 1 and 2.
abbrev one_room : Db
one_room = record reserved_market {
  rooms = new_room 2 40 10 2 1 ∷ [];
  participants = new_member 40 2 ∷ new_member 40 1 ∷ [];
}

abbrev hello : ChatMessage
hello = new_message 6 50 40 2 (trim (text "hi"))

abbrev greeted : Db
greeted = record one_room { rooms = new_room 6 40 10 2 1 ∷ []; messages = hello ∷ [] }

hello_sent : send 6 40 2 (text "hi") 50 one_room ≡ (ok hello, greeted)
unfolding send access try_send store_message create_message update_room catch_send is_blocked
    find_first update_many
hello_sent = refl

send-replay_example :
    (find_first (λ x. x.id == 50) greeted.messages ≡ some hello)
    × (send 9 40 2 (text "hi") 50 greeted ≡ (ok hello, greeted))
send-replay_example = send-replay 6 9 40 2 50 (text "hi") one_room greeted hello hello_sent
