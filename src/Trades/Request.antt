-- ===== src/Trades/Request.antt =====
-- apps/api/src/trades/trade.service.ts, `request`. `now` is what `new Date()` returns in the
-- call; the ids of new rows, which the database generates, are arguments.
use gamja_market.Base.{ℕ, Bool, ◌&&◌, ◌||◌, not, none, some, ◌∷◌, ◌==◌, is_some}
use gamja_market.Schema.{TradeStatus, is_active, Trade, Product, Db, find_first}
use gamja_market.Schema.Action.{
  Action, pure, gets, or_raise, raise_if, transaction, ◌>>=◌, ◌>>◌, not_found, conflict, forbidden,
  product_not_available, cannot_buy_own_product, trade_blocked, neighborhood_required,
  product_outside_neighborhood, active_trade_exists,
}
use gamja_market.Schema.Tables.{create_trade, create_history}
use gamja_market.Safety.{is_blocked}
use gamja_market.Trades.Model.{TradeView, serialize, is_active_trade, entry}

-- The `nearby` test of `request`.
unfoldable pub is_nearby : ℕ → ℕ → Db → Bool
is_nearby from to db =
    from == to || is_some (find_first (λ l. l.from_id == from && l.to_id == to) db.links)

-- `tx.chatRoom.upsert` of `request`: the room of product, buyer and seller, with its two
-- participants when it is new.
unfoldable pub upsert_room : ℕ → ℕ → ℕ → ℕ → ℕ → Action ℕ
upsert_room now room_id product_id buyer_id seller_id db =
    elim (find_first
      (λ r. r.product_id == product_id && (r.buyer_id == buyer_id && r.seller_id == seller_id))
      db.rooms) [
        | some room ↦ (pure room.id) db
        | none ↦ (pure room_id) (record db {
          rooms =
              record {
                id = room_id;
                product_id = product_id;
                buyer_id = buyer_id;
                seller_id = seller_id;
                updated_at = now;
              }
              ∷ db.rooms;
          participants =
              record { chat_room_id = room_id; user_id = buyer_id; last_read_at = none }
              ∷ record { chat_room_id = room_id; user_id = seller_id; last_read_at = none }
              ∷ db.participants;
        })
      ]

abbrev pub new_trade : ℕ → ℕ → ℕ → ℕ → Product → Trade
new_trade now id product_id buyer_id product = record {
  id = id;
  product_id = product_id;
  buyer_id = buyer_id;
  seller_id = product.author_id;
  price_krw = product.price_krw;
  status = TradeStatus.requested;
  rejected_at = none;
  delivered_at = none;
  auto_confirm_at = none;
  confirmed_at = none;
  disputed_at = none;
  cancelled_at = none;
  reason = none;
  updated_at = now;
}

-- The checks of `request`, which read the product.
unfoldable pub check_request : ℕ → ℕ → Action Product
check_request user product_id = do
  found ← gets λ db. find_first (λ p. p.id == product_id && is_active p.status) db.products
  product ← or_raise (not_found product_not_available) found
  raise_if (product.author_id == user) (conflict cannot_buy_own_product)
  blocked ← gets (is_blocked user product.author_id)
  raise_if blocked (forbidden trade_blocked)
  account ← gets λ db. find_first (λ u. u.id == user) db.users
  neighborhood ←
      or_raise (conflict neighborhood_required)
        (elim account [ none ↦ none | some u ↦ u.neighborhood_id ])
  nearby ← gets (is_nearby neighborhood product.neighborhood_id)
  raise_if (not nearby) (forbidden product_outside_neighborhood)
  duplicate ← gets λ db.
      find_first
        (λ t. t.product_id == product_id && (t.buyer_id == user && is_active_trade t.status))
        db.trades
  raise_if (is_some duplicate) (conflict active_trade_exists)
  pure product

-- The writes of `request`.
unfoldable pub open_trade : ℕ → ℕ → ℕ → ℕ → ℕ → Product → Action (Trade × ℕ)
unfolding create_trade create_history upsert_room
open_trade now trade_id room_id user product_id product = do
  created ← create_trade (new_trade now trade_id product_id user product)
  create_history (entry created.id (some user) none TradeStatus.requested none)
  chat ← upsert_room now room_id product_id user product.author_id
  pure (created, chat)

-- The transaction of `request`.
unfoldable pub request_tx : ℕ → ℕ → ℕ → ℕ → ℕ → Action (Trade × ℕ)
request_tx now trade_id room_id user product_id = do
  product ← check_request user product_id
  open_trade now trade_id room_id user product_id product

unfoldable pub request : ℕ → ℕ → ℕ → ℕ → ℕ → Action (TradeView × ℕ)
unfolding request_tx
request now trade_id room_id user product_id = do
  r ← transaction (request_tx now trade_id room_id user product_id)
  pure (serialize r.0 user, r.1)
