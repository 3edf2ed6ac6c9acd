-- ===== src/Schema/Action/Laws.antt =====
-- A transaction that throws leaves the database as it was.
use gamja_market.Base.{Bool, true, false, Option, none, some, ◌≡◌, refl, ◌⊎◌, inl, inr, arith}
use gamja_market.Schema.Records.{Db}
use gamja_market.Schema.Action.{
  Action, Error, Result, ok, err, pure, transaction, or_raise, raise_if, ◌>>=◌,
}

pub Result-cases :
    {A : Type 0} (r : Result A) → ((e : Error) × (r ≡ err e)) ⊎ ((a : A) × (r ≡ ok a))
Result-cases (ok a) = inr (a, refl)
Result-cases (err e) = inl (e, refl)

pub transaction_atomic :
    {A B : Type 0} (m : Action A) (f : A → B) (db : Db) (e : Error)
    → ((transaction m >>= λ a. pure (f a)) db).0 ≡ err e
    → ((transaction m >>= λ a. pure (f a)) db).1 ≡ db
transaction_atomic m f db e h = ground arith

-- What holds after an action, and is kept by the next, holds after both.
pub bind-keeps :
    {A B : Type 0} (P : Db → Type 0) (m : Action A) (f : A → Action B) (db : Db)
    → P (m db).1
    → ((a : A) → P (f a (m db).1).1)
    → P ((m >>= f) db).1
bind-keeps {A} {B} P m f db h k = go (m db).0
  where
    go :
        (r : Result A)
        → P (elim r as (λ _. Result B × Db) [ ok a ↦ f a (m db).1 | err e ↦ (err e, (m db).1) ]).1
    go (ok a) = k a
    go (err e) = h

-- A transaction keeps what it keeps when it does not throw.
pub transaction-keeps :
    {A : Type 0} (P : Db → Type 0) (m : Action A) (db : Db)
    → P db
    → ((a : A) → (m db).0 ≡ ok a → P (m db).1)
    → P (transaction m db).1
transaction-keeps {A} P m db h k = go (m db).0 refl
  where
    go :
        (r : Result A)
        → (m db).0 ≡ r
        → P (elim r as (λ _. Result A × Db) [ ok a ↦ (ok a, (m db).1) | err e ↦ (err e, db) ]).1
    go (ok a) e = k a e
    go (err _) e = h

-- What both outcomes of a look-up keep.
pub Option-keeps :
    {A B : Type 0} (P : Db → Type 0) (o : Option A) (n : Result B × Db) (s : A → Result B × Db)
    → P n.1
    → ((a : A) → P (s a).1)
    → P (elim o as (λ _. Result B × Db) [ none ↦ n | some a ↦ s a ]).1
Option-keeps P none n s h k = h
Option-keeps P (some a) n s h k = k a

-- A test writes nothing.
pub or_raise-keeps :
    {A : Type 0} (P : Db → Type 0) (e : Error) (o : Option A) (db : Db)
    → P db
    → P (or_raise e o db).1
or_raise-keeps P e none db h = h
or_raise-keeps P e (some a) db h = h

pub raise_if-keeps :
    (P : Db → Type 0) (b : Bool) (e : Error) (db : Db) → P db → P (raise_if b e db).1
raise_if-keeps P true e db h = h
raise_if-keeps P false e db h = h

pub raise_if-reads : (b : Bool) (e : Error) (db : Db) → (raise_if b e db).1 ≡ db
raise_if-reads true e db = refl
raise_if-reads false e db = refl

pub bind-ok :
    {A B : Type 0} (m : Action A) (f : A → Action B) (db : Db) (a : A)
    → (m db).0 ≡ ok a
    → (m >>= f) db ≡ f a (m db).1
bind-ok m f db a h = ground arith

-- Actions that agree on every database are composed to actions that agree.
pub bind-same :
    {A B : Type 0} {m m' : Action A} {f f' : A → Action B}
    → ((db : Db) → m db ≡ m' db)
    → ((a : A) (db : Db) → f a db ≡ f' a db)
    → (db : Db) → (m >>= f) db ≡ (m' >>= f') db
bind-same h k db = λ i. ((λ d. h d i) >>= λ a d. k a d i) db

pub transaction-same :
    {A : Type 0} {m m' : Action A}
    → ((db : Db) → m db ≡ m' db)
    → (db : Db) → transaction m db ≡ transaction m' db
transaction-same h db = λ i. transaction (λ d. h d i) db
