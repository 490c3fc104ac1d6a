-- ===== src/Store/Keeps.antt =====
-- Invariants of transactions: what holds of the database before a transaction that commits holds after
-- it. One rule for each way to build a transaction.
use kerberon.Base.{◌≡◌, refl, Bool, true, false, Option, none, some, if◌then◌else◌}
use kerberon.Store.Tx.{
  Db, Tx, Error, Result, ok, err, pure, fail, gets, continue, ◌>>=◌, lift, outcome, commit,
}

-- The database of a result, where there is one, satisfies `P`.
abbrev pub Ensures : {A : Type 0} → (Db → Type 0) → Result (A × Db) → Type 0
Ensures P (ok (a, db)) = P db
Ensures P (err e) = Unit

pub record Keeps {A : Type 0} (P : Db → Type 0) (m : Tx A) : Type 0 where
  pub at : (db : Db) → P db → Ensures P (m db)

module _ {A : Type 0} {P : Db → Type 0} where
  pub Keeps-pure : (a : A) → Keeps P (pure a)
  Keeps-pure a = record { at = λ db h. h }

  pub Keeps-fail : (e : Error) → Keeps P (fail {A = A} e)
  Keeps-fail e = record { at = λ db h. tt }

  pub Keeps-lift : (e : Error) (o : Option A) → Keeps P (lift e o)
  Keeps-lift e none = record { at = λ db h. tt }
  Keeps-lift e (some a) = record { at = λ db h. h }

  pub Keeps-if : (b : Bool) (m n : Tx A) → Keeps P m → Keeps P n → Keeps P (if b then m else n)
  Keeps-if true m n km kn = km
  Keeps-if false m n km kn = kn

  pub Keeps-gets : (f : Db → A) → Keeps P (gets f)
  Keeps-gets f = record { at = λ db h. h }

  -- Where the rest depends on a value computed from the database.
  pub Keeps-read : (f : Db → Tx A) → ((db : Db) → Keeps P (f db)) → Keeps P (λ db. f db db)
  Keeps-read f k = record { at = λ db h. (k db).at db h }

module _ {A B : Type 0} {P : Db → Type 0} where
  Ensures-continue :
      (r : Result (A × Db)) (f : A → Tx B)
      → Ensures P r
      → ((a : A) → Keeps P (f a))
      → Ensures P (continue r f)
  Ensures-continue (ok (a, db)) f h k = (k a).at db h
  Ensures-continue (err e) f h k = tt

  pub Keeps-bind :
      (m : Tx A) (f : A → Tx B) → Keeps P m → ((a : A) → Keeps P (f a)) → Keeps P (m >>= f)
  Keeps-bind m f km kf = record { at = λ db h. Ensures-continue (m db) f (km.at db h) kf }

-- The guards of a statement, one after the other, with what each has ruled out.
pub Ensures-if :
    {A : Type 0} (P : Db → Type 0) (b : Bool) (x y : Result (A × Db))
    → (b ≡ true → Ensures P x)
    → (b ≡ false → Ensures P y)
    → Ensures P (if b then x else y)
Ensures-if P true x y hx hy = hx refl
Ensures-if P false x y hx hy = hy refl

pub Ensures-map :
    {A : Type 0} (P Q : Db → Type 0) (f : (db : Db) → P db → Q db) (r : Result (A × Db))
    → Ensures P r
    → Ensures Q r
Ensures-map P Q f (ok (a, db)) h = f db h
Ensures-map P Q f (err e) h = tt

Ensures-both :
    {A : Type 0} (P Q : Db → Type 0) (r : Result (A × Db))
    → Ensures P r
    → Ensures Q r
    → Ensures (λ db. P db × Q db) r
Ensures-both P Q (ok (a, db)) p q = (p, q)
Ensures-both P Q (err e) p q = tt

pub Keeps-both :
    {A : Type 0} {P Q : Db → Type 0} (m : Tx A)
    → Keeps P m
    → Keeps Q m
    → Keeps (λ db. P db × Q db) m
Keeps-both {P} {Q} m kp kq = record {
  at = λ db h. Ensures-both P Q (m db) (kp.at db h.0) (kq.at db h.1);
}

-- A transaction that commits keeps `P`, and one that fails changes nothing.
pub outcome-Keeps :
    {A : Type 0} (P : Db → Type 0) (r : Result (A × Db)) (db : Db)
    → P db
    → Ensures P r
    → P (outcome r db).1
outcome-Keeps P (ok (a, db')) db h e = e
outcome-Keeps P (err e) db h t = h

pub commit-Keeps :
    {A : Type 0} {P : Db → Type 0} (m : Tx A) → Keeps P m → (db : Db) → P db → P (commit m db).1
unfolding commit
commit-Keeps {P} m k db h = outcome-Keeps P (m db) db h (k.at db h)

pub ruleset keeps_rules = (Keeps-pure, Keeps-fail, Keeps-gets, Keeps-lift, Keeps-if, Keeps-bind)
