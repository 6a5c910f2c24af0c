-- ===== src/Database/Monad/Runs.antt =====
-- Inversion of runs: what a statement, a bind, an option and a transaction did, by their result.
use rs8kvn_bot.Common.{suc, Option, none, some, ◌≡◌, refl, arith, ap}
use rs8kvn_bot.Database.Monad.{
  Tables, Error, Db, Result, ok, err, M, or_raise, ◌>>=◌, advance, statement, query, transaction,
}

module _ {A : Type 0} where
  pub statement-eq-ok :
      (act : Tables → Result A × Tables) (db : Db) {a : A} {db' : Db}
      → statement act db ≡ (ok a, db')
      → ((act db.tables).0 ≡ ok a)
        × (db' ≡ record db { tables = (act db.tables).1; tick = suc db.tick })
  statement-eq-ok act db h = ground arith

  pub query-eq-ok :
      (f : Tables → A) (db : Db) {a : A} {db' : Db}
      → query f db ≡ (ok a, db')
      → (f db.tables ≡ a) × (db' ≡ advance db)
  query-eq-ok f db h = ground arith

  pub or_raise-eq-ok :
      (o : Option A) (e : Error) (db : Db) {a : A} {db' : Db}
      → or_raise o e db ≡ (ok a, db')
      → (o ≡ some a) × (db' ≡ db)
  or_raise-eq-ok none e db h = cc
  or_raise-eq-ok (some a) e db h = ground arith

  -- A transaction that fails leaves the tables alone.
  pub transaction-err :
      (body : M A) (db : Db) {e : Error}
      → (transaction body db).0 ≡ err e
      → (transaction body db).1.tables ≡ db.tables
  unfolding transaction
  transaction-err body db h = ground arith

  -- One that succeeds keeps what its body did.
  pub transaction-eq-ok :
      (body : M A) (db : Db) {a : A}
      → (transaction body db).0 ≡ ok a
      → (db' : Db) × (body db ≡ (ok a, db')) × ((transaction body db).1 ≡ advance db')
  unfolding transaction
  transaction-eq-ok body db h = ((body db).1, ground arith, ground arith)

-- the second half of a bind
abbrev continue : {A B : Type 0} → (A → M B) → Result A × Db → Result B × Db
continue f (r, db') = elim r [ ok a ↦ f a db' | err e ↦ (err e, db') ]

continue-eq-ok :
    {A B : Type 0} (f : A → M B) (r : Result A × Db) {b : B} {db'' : Db}
    → continue f r ≡ (ok b, db'')
    → (a : A) × (db' : Db) × (r ≡ (ok a, db')) × (f a db' ≡ (ok b, db''))
continue-eq-ok f (ok a, db') h = (a, db', refl, h)
continue-eq-ok f (err x, db') h = cc

-- A successful bind ran both of its halves.
pub >>=-eq-ok :
    {A B : Type 0} (m : M A) (f : A → M B) (db : Db) {b : B} {db'' : Db}
    → (m >>= f) db ≡ (ok b, db'')
    → (a : A) × (db' : Db) × (m db ≡ (ok a, db')) × (f a db' ≡ (ok b, db''))
>>=-eq-ok m f db h = continue-eq-ok f (m db) h

pub >>=_ok :
    {A B : Type 0} (m : M A) (f : A → M B) (db : Db) {a : A} {db' : Db}
    → m db ≡ (ok a, db')
    → (m >>= f) db ≡ f a db'
>>=_ok m f db h = ap (λ r. elim (r.0) [ ok a ↦ f a (r.1) | err e ↦ (err e, r.1) ]) h
