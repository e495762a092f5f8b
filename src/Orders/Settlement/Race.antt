-- ===== src/Orders/Settlement/Race.antt =====
-- Any number of settlers of one order, one transaction after the other.
use canals.Prelude.{
  ℕ, suc, ◌≡◌, refl, ◌∙◌, List, [], ◌∷◌, Bool, true, false, ◌⊎◌, inl, inr, if◌then◌else◌,
}
use mathlib.Core.List.{Memᴰ}
use canals.Errors.{Uuid, Error, Result, ok, err}
use canals.Store.{Database, transaction}
use canals.Orders.Settlement.{SettlementOutcome, settled, already_settled, SettlementResult}
use canals.Orders.Settlement.Winner.{
  Attempt, attempt, goal_of, IsSettled, threw, lost, won, attempt-Ending, settled_loses,
}

abbrev is_win : SettlementOutcome → Bool
is_win settled = true
is_win already_settled = false

abbrev pub has_settled : Result SettlementResult → Bool
has_settled (ok s) = is_win s.outcome
has_settled (err e) = false

-- How many of the attempts settle, and what they leave.
unfoldable pub race : Uuid → List Attempt → Database → ℕ × Database
race id [] db = (0, db)
race id (a ∷ rest) db =
    let (result, left) = transaction (attempt id a) db in
    let (wins, end) = race id rest left in ((if has_settled result then suc wins else wins), end)

module _ (id : Uuid) (a : Attempt) (rest : List Attempt) (db : Database) where
  threw_step : (e : Error) → attempt id a db ≡ err e → race id (a ∷ rest) db ≡ race id rest db
  unfolding race transaction
  threw_step e h = rw (transaction, h)

  lost_step :
      (s : SettlementResult)
      → attempt id a db ≡ ok (s, db)
      → s.outcome ≡ already_settled
      → race id (a ∷ rest) db ≡ race id rest db
  unfolding race transaction
  lost_step s h o = rw (transaction, h) (rw o)

  won_step :
      (s : SettlementResult) (db' : Database)
      → attempt id a db ≡ ok (s, db')
      → s.outcome ≡ settled
      → race id rest db' ≡ (0, db')
      → race id (a ∷ rest) db ≡ (1, db')
  unfolding race transaction
  won_step s db' h o later = rw (transaction, h) (rw (o, later))

settled_race :
    (id : Uuid) (rest : List Attempt) (db : Database) → IsSettled id db → race id rest db ≡ (0, db)
unfolding race
settled_race id [] db h = refl
settled_race id (a ∷ rest) db h = elim (settled_loses id a db h) [
  | inl (e, t) ↦ threw_step id a rest db e t ∙ settled_race id rest db h
  | inr (s, t, o, _) ↦ lost_step id a rest db s t o ∙ settled_race id rest db h
]

-- One attempt of the list has settled the order, and the whole race has left what it alone leaves.
pub record HasWinner (id : Uuid) (attempts : List Attempt) (db : Database) : Type 0 where
  pub winner : Attempt
  pub listed : Memᴰ winner attempts
  pub result : SettlementResult
  pub left : Database
  pub ran : attempt id winner db ≡ ok (result, left)
  pub settles : result.outcome ≡ settled
  pub becomes : result.order.status ≡ goal_of winner
  pub alone : race id attempts db ≡ (1, left)

later_winner :
    (id : Uuid) (a : Attempt) (rest : List Attempt) (db : Database)
    → race id (a ∷ rest) db ≡ race id rest db
    → (race id rest db ≡ (0, db)) ⊎ HasWinner id rest db
    → (race id (a ∷ rest) db ≡ (0, db)) ⊎ HasWinner id (a ∷ rest) db
later_winner id a rest db same (inl e) = inl (same ∙ e)
later_winner id a rest db same (inr w) = inr (record {
  winner = w.winner;
  listed = Memᴰ.tail w.listed;
  result = w.result;
  left = w.left;
  ran = w.ran;
  settles = w.settles;
  becomes = w.becomes;
  alone = same ∙ w.alone;
})

-- Whatever settlers (the saga, the reaper, reconciliation, retries of them) try to settle an order,
-- in whatever order and with whatever lock failures, either none settles it and the database is
-- untouched, or exactly one does: it is one of the list, the order that it gives has the status that
-- it aims at, and the whole race leaves what it alone makes of the first database.
pub one_winner :
    (id : Uuid) (attempts : List Attempt) (db : Database)
    → (race id attempts db ≡ (0, db)) ⊎ HasWinner id attempts db
unfolding race
one_winner id [] db = inl refl
one_winner id (a ∷ rest) db = elim (attempt-Ending id a db) [
  | threw {e} t ↦ later_winner id a rest db (threw_step id a rest db e t) (one_winner id rest db)
  | lost {s} t o ↦ later_winner id a rest db (lost_step id a rest db s t o) (one_winner id rest db)
  | won {s} {db'} t o becomes done ↦ inr (record {
    winner = a;
    listed = Memᴰ.head refl;
    result = s;
    left = db';
    ran = t;
    settles = o;
    becomes = becomes;
    alone = won_step id a rest db s db' t o (settled_race id rest db' done);
  })
]
