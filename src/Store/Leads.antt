-- ===== src/Store/Leads.antt =====
-- What a transaction leads to: if the database satisfies `P` before, it satisfies `Q` after a commit.
use kerberon.Base.{◌≡◌, refl, Bool, true, false, if◌then◌else◌}
use kerberon.Store.Tx.{Db, Tx, Error, Result, ok, err, fail, continue, ◌>>=◌, commit, outcome}
use kerberon.Store.Keeps.{Keeps, Ensures}

pub record Leads {A : Type 0} (P Q : Db → Type 0) (m : Tx A) : Type 0 where
  pub at : (db : Db) → P db → Ensures Q (m db)

module _ {A : Type 0} {P Q : Db → Type 0} where
  pub Leads-fail : (e : Error) → Leads P Q (fail {A = A} e)
  Leads-fail e = record { at = λ db h. tt }

  pub Leads-if :
      (b : Bool) (m n : Tx A) → Leads P Q m → Leads P Q n → Leads P Q (if b then m else n)
  Leads-if true m n lm ln = lm
  Leads-if false m n lm ln = ln

module _ {A B : Type 0} {Q : Db → Type 0} where
  pub ensures-keep :
      (r : Result (A × Db)) (f : A → Tx B)
      → Ensures Q r
      → ((a : A) → Keeps Q (f a))
      → Ensures Q (continue r f)
  ensures-keep (ok (a, db)) f h k = (k a).at db h
  ensures-keep (err e) f h k = tt

module _ {A B : Type 0} {P Q : Db → Type 0} where
  ensures-lead :
      (r : Result (A × Db)) (f : A → Tx B)
      → Ensures P r
      → ((a : A) → Leads P Q (f a))
      → Ensures Q (continue r f)
  ensures-lead (ok (a, db)) f h k = (k a).at db h
  ensures-lead (err e) f h k = tt

  -- What keeps `P` may come first.
  pub Leads-after :
      (m : Tx A) (f : A → Tx B) → Keeps P m → ((a : A) → Leads P Q (f a)) → Leads P Q (m >>= f)
  Leads-after m f km kf = record { at = λ db h. ensures-lead (m db) f (km.at db h) kf }

  -- What keeps `Q` may come last.
  pub Leads-before :
      (m : Tx A) (f : A → Tx B) → Leads P Q m → ((a : A) → Keeps Q (f a)) → Leads P Q (m >>= f)
  Leads-before m f lm kf = record { at = λ db h. ensures-keep (m db) f (lm.at db h) kf }

module _ {A B : Type 0} {P R Q : Db → Type 0} where
  pub Leads-then :
      (m : Tx A) (f : A → Tx B) → Leads P R m → ((a : A) → Leads R Q (f a)) → Leads P Q (m >>= f)
  Leads-then m f lm lf = record { at = λ db h. ensures-lead (m db) f (lm.at db h) lf }

-- A commit that answers `a` has led there.
pub commit-ensures :
    {A : Type 0} (Q : Db → Type 0) (m : Tx A) (db : Db) {a : A}
    → Ensures Q (m db)
    → (commit m db).0 ≡ ok a
    → Q (commit m db).1
unfolding commit
commit-ensures {A} Q m db {a} e h = by_result (m db) e h
  where
    by_result : (r : Result (A × Db)) → Ensures Q r → (outcome r db).0 ≡ ok a → Q (outcome r db).1
    by_result (ok (b, db')) e same = e
    by_result (err x) e same = absurd (cc same)

-- A transaction that fails is rolled back.
pub refused-commit :
    {A : Type 0} {e : Error} (m : Tx A) (db : Db) → m db ≡ err e → commit m db ≡ (err e, db)
unfolding commit
refused-commit m db h = rw h refl
