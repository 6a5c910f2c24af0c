-- ===== src/Service/World/Runs.antt =====
-- Runs of the services that act on the database by the operations of the order store.
use rs8kvn_bot.Common.{◌≡◌, Bool, true, false, if◌then◌else◌}
use rs8kvn_bot.Database.Monad.{M, Db, Result, ok, err}
use rs8kvn_bot.Database.Orders.Lifecycle.Reach.{Reach, here, next, others}
use rs8kvn_bot.Service.World.{World, S, lift, attempt, continue, ◌>>=◌}

pub Reach-trans : (a b c : Db) → Reach a b → Reach b c → Reach a c
Reach-trans a b c h here = h
Reach-trans a b c h (next r s) = next (Reach-trans _ _ _ h r) s

abbrev pub Runs : {A : Type 0} → S A → Type 0
Runs m = (w : World) → Reach w.db (m w).1.db

pub Runs-lift : {A : Type 0} (m : M A) → ((db : Db) → Reach db (m db).1) → Runs (lift m)
Runs-lift m h w = h w.db

pub Runs-attempt : {A : Type 0} (m : S A) → Runs m → Runs (attempt m)
Runs-attempt m h w = h w

Runs-continue :
    {A B : Type 0} (f : A → S B) (db : Db) (r : Result A × World)
    → Reach db r.1.db
    → ((a : A) → Runs (f a))
    → Reach db (continue f r).1.db
Runs-continue f db (ok a, w) h k = Reach-trans db w.db (f a w).1.db h (k a w)
Runs-continue f db (err e, w) h k = h

pub Runs-bind :
    {A B : Type 0} (m : S A) (f : A → S B) → Runs m → ((a : A) → Runs (f a)) → Runs (m >>= f)
Runs-bind m f h k w = Runs-continue f w.db (m w) (h w) k

pub Runs-if : {A : Type 0} (b : Bool) (m n : S A) → Runs m → Runs n → Runs (if b then m else n)
Runs-if true m n h k = h
Runs-if false m n h k = k

-- a call of the store that leaves the orders alone
pub Runs-read :
    {A : Type 0} (m : M A) → ((db : Db) → (m db).1.tables.orders ≡ db.tables.orders) → Runs (lift m)
Runs-read m same w = next here (others (m w.db).1 (same w.db))
