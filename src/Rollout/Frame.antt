-- ===== src/Rollout/Frame.antt =====
-- Rules for a property of the tables and the actions of brisk-control/internal/store/rollouts.go.
use brisk.Prelude.{◌≡◌, Bool, true, false, if◌then◌else◌, arith, subst, sym}
use brisk.Rollout.{Db}
use brisk.Rollout.Store.{
  M, Err, Result, ok, err, World, ◌>>=◌, pure, fail, query, exec, round_trip, transaction, commit,
  continue,
}
use brisk.Rollout.Api.{attempt, either}

-- `m` keeps `P`, whether it returns or fails
pub record Keeps {A : Type 0} (P : Db → Type 0) (m : M A) : Type 0 where
  pub at : (w : World) → P w.db → P (m w).1.db

pub db-round_trip : (w : World) → (round_trip w).1.db ≡ w.db
unfolding round_trip
db-round_trip w = ground arith

module _ {A : Type 0} {P : Db → Type 0} where
  pub Keeps-pure : (a : A) → Keeps P (pure a)
  Keeps-pure a = record { at = λ w h. h }

  pub Keeps-fail : (e : Err) → Keeps P (fail {A = A} e)
  Keeps-fail e = record { at = λ w h. h }

  pub Keeps-if : (b : Bool) (m n : M A) → Keeps P m → Keeps P n → Keeps P (if b then m else n)
  Keeps-if true m n km kn = km
  Keeps-if false m n km kn = kn

  pub Keeps-attempt : (m : M A) → Keeps P m → Keeps P (attempt m)
  Keeps-attempt m km = record { at = km.at }

  pub Keeps-transaction : (m : M A) → Keeps P m → Keeps P (transaction m)
  unfolding transaction
  Keeps-transaction m km = record { at = λ w h. split w h (m w).0 (m w).1 (km.at w h) }
    where
      split : (w : World) → P w.db → (r : Result A) (w' : World) → P w'.db → P (commit w r w').1.db
      split w h (ok a) w' h' = h'
      split w h (err e) w' h' = h

pub Keeps-round_trip : {P : Db → Type 0} → Keeps P round_trip
Keeps-round_trip {P} = record { at = λ w h. subst P (sym (db-round_trip w)) h }

module _ {A B : Type 0} {P : Db → Type 0} where
  Keeps-continue : (r : Result A) (f : A → M B) → ((a : A) → Keeps P (f a)) → Keeps P (continue r f)
  Keeps-continue (ok a) f kf = kf a
  Keeps-continue (err e) f kf = Keeps-fail e

  pub Keeps-bind :
      (m : M A) (f : A → M B) → Keeps P m → ((a : A) → Keeps P (f a)) → Keeps P (m >>= f)
  Keeps-bind m f km kf = record { at = λ w h. (Keeps-continue (m w).0 f kf).at (m w).1 (km.at w h) }

  -- What follows a read may use that the value read is the tables' own.
  pub Keeps-query :
      (g : Db → A) (f : A → M B)
      → ((w : World) → P w.db → P (f (g w.db) w).1.db)
      → Keeps P (query g >>= f)
  Keeps-query g f kf = record {
    at = λ w h. split (round_trip w).0 (round_trip w).1 ((Keeps-round_trip {P = P}).at w h);
  }
    where
      split :
          (r : Result (Unit {0})) (w : World)
          → P w.db
          → P (let (s, w') = continue r (λ _ v. (ok (g v.db), v)) w in continue s f w').1.db
      split (ok u) w h = kf w h
      split (err e) w h = h

pub Keeps-read : {A : Type 0} {P : Db → Type 0} (g : Db → A) → Keeps P (query g)
Keeps-read {P} g =
    Keeps-bind round_trip _ (Keeps-round_trip {P = P}) (λ u. record { at = λ w h. h })

pub Keeps-exec : {P : Db → Type 0} (f : Db → Db) → ((db : Db) → P db → P (f db)) → Keeps P (exec f)
Keeps-exec f kf = Keeps-bind round_trip _ Keeps-round_trip (λ u. record { at = λ w h. kf w.db h })

-- A write whose failure leaves `Q` as it was, and whose success makes it hold.
pub exec_lem :
    (P Q : Db → Type 0) (f : Db → Db)
    → ((db : Db) → P db → Q db)
    → ((db : Db) → P db → Q (f db))
    → (w : World) → P w.db
    → Q (exec f w).1.db
exec_lem P Q f same write w h =
    split (round_trip w).0 (round_trip w).1 ((Keeps-round_trip {P = P}).at w h)
  where
    split :
        (r : Result (Unit {0})) (w : World)
        → P w.db
        → Q (continue r (λ _ v. (ok tt, record v { db = f v.db })) w).1.db
    split (ok u) w h = write w.db h
    split (err e) w h = same w.db h

-- Whatever branch a test takes, at one state.
pub if_lem :
    {A : Type 0} (Q : Db → Type 0) (b : Bool) (m n : M A) (w : World)
    → Q (m w).1.db
    → Q (n w).1.db
    → Q ((if b then m else n) w).1.db
if_lem Q true m n w hm hn = hm
if_lem Q false m n w hm hn = hn

pub pick_lem :
    {A : Type 0} (Q : Db → Type 0) (b : Bool) (x y : Result A × World)
    → Q x.1.db
    → Q y.1.db
    → Q (if b then x else y).1.db
pick_lem Q true x y hx hy = hx
pick_lem Q false x y hx hy = hy

pub Keeps-either :
    {A B : Type 0} {P : Db → Type 0} (r : Result A) (f : A → M B) (g : Err → M B)
    → ((a : A) → Keeps P (f a))
    → ((e : Err) → Keeps P (g e))
    → Keeps P (either r f g)
Keeps-either (ok a) f g kf kg = kf a
Keeps-either (err e) f g kf kg = kg e

pub ruleset keeps_rules = (
  Keeps-pure, Keeps-fail, Keeps-if, Keeps-attempt, Keeps-transaction, Keeps-round_trip, Keeps-bind,
  Keeps-exec, Keeps-read, Keeps-either,
)
