-- ===== src/Allocation/Inventory/Post.antt =====
-- The effect of the pair of writes, a balance and its movement, that every method is made of.
use canals.Prelude.{
  ℕ, ◌+◌, ◌≡◌, Option, none, some, true, ◌&&◌, ◌==◌, if◌then◌else◌, arith, is_some,
}
use mathlib.Core.Option
use canals.Prelude.Int.{ℤ, pos_part, neg_part}
use canals.Errors.{Uuid, ok, is_ok}
use canals.Store.{InventoryRow, MovementType, Database}
use canals.Allocation.Inventory.{put, post, is_ended, held}

-- The two balances of a row, without its version.
abbrev pub balances : InventoryRow → ℕ × ℕ
balances row = (row.quantity_available, row.quantity_reserved)

abbrev pub stock : Uuid → Uuid → Database → Option (ℕ × ℕ)
stock w p db = Option.map balances (db.inventory w p)

abbrev pub held_of : MovementType → ℤ → Option ℕ
held_of type d = if is_ended type then none else some (pos_part d + neg_part d)

-- What `post` leaves alone.
pub record KeepsRest (db db' : Database) : Type 0 where
  pub orders : db'.orders ≡ db.orders
  pub order_items : db'.order_items ≡ db.order_items
  pub payments : db'.payments ≡ db.payments
  pub jobs : db'.jobs ≡ db.jobs
  pub clock : db'.clock ≡ db.clock

pub KeepsRest-trans : (a b c : Database) → KeepsRest a b → KeepsRest b c → KeepsRest a c
KeepsRest-trans a b c h k = ground arith

pub KeepsRest-refl : (a : Database) → KeepsRest a a
KeepsRest-refl a = ground arith

module _ (o w p : Uuid) (type : MovementType) (d a r : ℤ) (db db' : Database)
    (posted : post o w p type d a r db ≡ ok db') where
  pub stock-post :
      (w' p' : Uuid)
      → stock w' p' db' ≡ (
          if w == w' && p == p'
          then Option.map (λ _. (pos_part a, pos_part r)) (stock w p db)
          else stock w' p' db)
  unfolding post put
  stock-post w' p' = ground arith

  pub held-post :
      (o' p' : Uuid)
      → held o' p' db' ≡ (if o == o' && p == p' then held_of type d else held o' p' db)
  unfolding post held
  held-post o' p' = ground arith

  pub post-KeepsRest : KeepsRest db db'
  unfolding post
  post-KeepsRest = ground arith

  -- A row is neither made nor removed.
  pub present-post : (w' p' : Uuid) → is_some (db'.inventory w' p') ≡ is_some (db.inventory w' p')
  unfolding post put
  present-post w' p' = ground arith

-- The pair of writes succeeds at balances that are not negative.
pub post_fits :
    (o w p : Uuid) (type : MovementType) (d a r : ℤ) (db : Database)
    → (neg_part a ≡ 0) × (neg_part r ≡ 0)
    → is_ok (post o w p type d a r db) ≡ true
unfolding post
post_fits o w p type d a r db h = ground arith
