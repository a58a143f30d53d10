-- ===== src/Sync/Monad.antt =====
-- The methods that talk to the database: each returns a result and leaves a world. What was
-- written before an error stays written.
use clipkitty.Base.{
  ℕ, suc, ℤ, Option, none, some, ◌≡◌, refl, sym, ap, ◌∙◌, Bool, true, false, if◌then◌else◌,
}
use mathlib.Core.Path.{subst}
use clipkitty.Sync.Event.{SyncError, Result, ok, err}
use clipkitty.Sync.Db.{Db, Env, World}

abbrev pub Sync : Type 0 → Type 0 → Type 0
Sync J A = World J → Result A × World J

module _ {J A : Type 0} where
  unfoldable pub pure : A → Sync J A
  pure a w = (ok a, w)

  -- A statement, given the fault that strikes it, if any.
  unfoldable pub statement : Option SyncError → Result A × Db J → World J → Result A × World J
  statement (some e) out w = (err e, record w { ticks = suc w.ticks })
  statement none (r, db) w = (r, record { db = db; ticks = suc w.ticks })

  -- One statement: the time is what the clock shows at it.
  unfoldable pub exec : Env J → (ℤ → Db J → Result A × Db J) → Sync J A
  unfolding statement
  exec env f w = statement (env.fault w.ticks) (f (env.clock w.ticks) w.db) w

  -- A query, which changes nothing.
  unfoldable pub read : Env J → (Db J → Result A) → Sync J A
  unfolding exec
  read env f = exec env (λ now db. (f db, db))

-- An update.
unfoldable pub write : {J : Type 0} → Env J → (ℤ → Db J → Db J) → Sync J (Unit {0})
unfolding exec
write env f = exec env (λ now db. (ok tt, f now db))

-- `Utc::now()` outside of a statement.
unfoldable pub now : {J : Type 0} → Env J → Sync J ℤ
now env w = (ok (env.clock w.ticks), record w { ticks = suc w.ticks })

infixl 5 ◌>>=◌ ◌>>◌
-- The rest of a method goes on from the result and the world of what stands before it.
unfoldable pub continue :
    {J A B : Type 0} → Result A × World J → (A → Sync J B) → Result B × World J
continue (ok a, w) f = f a w
continue (err e, w) f = (err e, w)

unfoldable pub ◌>>=◌ : {J A B : Type 0} → Sync J A → (A → Sync J B) → Sync J B
unfolding continue
◌>>=◌ m f w = continue (m w) f

unfoldable pub ◌>>◌ : {J B : Type 0} → Sync J (Unit {0}) → Sync J B → Sync J B
unfolding ◌>>=◌
m >> k = m >>= λ _. k

-- No statement fails.
abbrev pub IsQuiet : {J : Type 0} → Env J → Type 0
IsQuiet env = (n : ℕ) → env.fault n ≡ none

pub ok-injective : {A : Type 0} {a b : A} → ok a ≡ ok b → a ≡ b
ok-injective e = cc

-- A statement that succeeds was struck by no fault.
pub statement-eq-ok :
    {J A : Type 0} (o : Option SyncError) (out : Result A × Db J) (w : World J) (a : A)
    → (statement o out w).0 ≡ ok a
    → (out.0 ≡ ok a) × ((statement o out w).1.db ≡ out.1)
unfolding statement
statement-eq-ok (some x) out w a e = absurd cc
statement-eq-ok none (r, db) w a e = (e, refl)

-- What a method that succeeds went through.
pub continue-eq-ok :
    {J A B : Type 0} (out : Result A × World J) (f : A → Sync J B) (b : B)
    → (continue out f).0 ≡ ok b
    → (a : A) × (out.0 ≡ ok a) × (continue out f ≡ f a out.1)
unfolding continue
continue-eq-ok (ok a, w) f b e = (a, refl, refl)
continue-eq-ok (err x, w) f b e = absurd cc

continue-of_ok :
    {J A B : Type 0} (out : Result A × World J) (f : A → Sync J B) (a : A)
    → out.0 ≡ ok a
    → continue out f ≡ f a out.1
unfolding continue
continue-of_ok (ok b, w) f a e = ap (λ x. f x w) (ok-injective e)
continue-of_ok (err x, w) f a e = absurd cc

statement-of_none :
    {J A : Type 0} (o : Option SyncError) (out : Result A × Db J) (w : World J)
    → o ≡ none
    → (statement o out w).0 ≡ out.0
unfolding statement
statement-of_none none (r, db) w e = refl
statement-of_none (some x) (r, db) w e = absurd cc

-- From a database that satisfies `P`: where no statement fails, `m` succeeds; and a run of `m` that
-- succeeds leaves a database that satisfies `Q`.
pub record Ensures {J A : Type 0} (env : Env J) (P : Db J → Type 0) (m : Sync J A)
    (Q : A → Db J → Type 0) : Type 0 where
  pub runs : IsQuiet env → (w : World J) → P w.db → (a : A) × ((m w).0 ≡ ok a)
  pub at : (w : World J) (a : A) → P w.db → (m w).0 ≡ ok a → Q a (m w).1.db

-- Where no statement fails, both hold of the run.
pub Ensures-run :
    {J A : Type 0} {env : Env J} {P : Db J → Type 0} {m : Sync J A} {Q : A → Db J → Type 0}
    → Ensures env P m Q
    → IsQuiet env
    → (w : World J) → P w.db
    → (a : A) × ((m w).0 ≡ ok a) × Q a (m w).1.db
Ensures-run ensures quiet w p = let (a, e) = ensures.runs quiet w p in (a, e, ensures.at w a p e)

-- A method that keeps a property of the database, whatever it returns.
abbrev pub Keeps : {J A : Type 0} → Env J → (Db J → Type 0) → Sync J A → Type 0
Keeps env P m = Ensures env P m (λ _. P)

module _ {J : Type 0} {env : Env J} {A : Type 0} {P : Db J → Type 0} {Q : A → Db J → Type 0} where
  pub Ensures-pure : (a : A) → ((db : Db J) → P db → Q a db) → Ensures env P (pure a) Q
  unfolding pure
  Ensures-pure a h = record {
    runs = λ quiet w p. (a, refl);
    at = λ w b p e. subst (λ x. Q x w.db) (ok-injective e) (h w.db p);
  }

module _ {J : Type 0} (env : Env J) {A : Type 0} {P : Db J → Type 0} {Q : A → Db J → Type 0} where
  pub Ensures-exec :
      (f : ℤ → Db J → Result A × Db J)
      → ((t : ℤ) (db : Db J) → P db → (a : A) × ((f t db).0 ≡ ok a))
      → ((t : ℤ) (db : Db J) (a : A) → P db → (f t db).0 ≡ ok a → Q a (f t db).1)
      → Ensures env P (exec env f) Q
  unfolding exec
  Ensures-exec f succeeds h = record {
    runs = λ quiet w p.
        let t = env.clock w.ticks in
        let (a, e) = succeeds t w.db p in
        (a, statement-of_none (env.fault w.ticks) (f t w.db) w (quiet w.ticks) ∙ e);
    at = λ w b p e.
        let t = env.clock w.ticks in
        let done = statement-eq-ok (env.fault w.ticks) (f t w.db) w b e in
        subst (Q b) (sym done.1) (h t w.db b p done.0);
  }

  pub Ensures-read :
      (f : Db J → Result A)
      → ((db : Db J) → P db → (a : A) × (f db ≡ ok a))
      → ((db : Db J) (a : A) → P db → f db ≡ ok a → Q a db)
      → Ensures env P (read env f) Q
  unfolding read
  Ensures-read f succeeds h =
      Ensures-exec (λ t db. (f db, db)) (λ t db p. succeeds db p) (λ t db a p e. h db a p e)

module _ {J : Type 0} (env : Env J) {P : Db J → Type 0} {Q : Unit {0} → Db J → Type 0} where
  pub Ensures-write :
      (f : ℤ → Db J → Db J)
      → ((t : ℤ) (db : Db J) → P db → Q tt (f t db))
      → Ensures env P (write env f) Q
  unfolding write
  Ensures-write f h =
      Ensures-exec env (λ t db. (ok tt, f t db)) (λ t db p. (tt, refl)) (λ t db a p e. h t db p)

pub Ensures-now : {J : Type 0} {P : Db J → Type 0} (env : Env J) → Ensures env P (now env) (λ _. P)
unfolding now
Ensures-now env = record { runs = λ quiet w p. (env.clock w.ticks, refl); at = λ w b p e. p }

module _ {J : Type 0} {env : Env J} {A B : Type 0} {P : Db J → Type 0} {R : B → Db J → Type 0} where
  pub Ensures-bind :
      (Q : A → Db J → Type 0) (m : Sync J A) (f : A → Sync J B)
      → Ensures env P m Q
      → ((a : A) → Ensures env (Q a) (f a) R)
      → Ensures env P (m >>= f) R
  unfolding ◌>>=◌
  Ensures-bind Q m f km kf = record {
    runs = λ quiet w p.
        let (a, ea) = km.runs quiet w p in
        let (b, eb) = (kf a).runs quiet (m w).1 (km.at w a p ea) in
        (b, ap (λ (x : Result B × World J). x.0) (continue-of_ok (m w) f a ea) ∙ eb);
    at = λ w b p e.
        let (a, ea, step) = continue-eq-ok (m w) f b e in
        rw step ((kf a).at (m w).1 b (km.at w a p ea) (rw step at e));
  }

module _ {J : Type 0} {env : Env J} {B : Type 0} {P : Db J → Type 0} {R : B → Db J → Type 0} where
  pub Ensures-then :
      (Q : Db J → Type 0) (m : Sync J (Unit {0})) (k : Sync J B)
      → Ensures env P m (λ _. Q)
      → Ensures env Q k R
      → Ensures env P (m >> k) R
  unfolding ◌>>◌
  Ensures-then Q m k km kk = Ensures-bind (λ _. Q) m (λ _. k) km (λ _. kk)

module _ {J : Type 0} {env : Env J} {A : Type 0} {P : Db J → Type 0} where
  pub Keeps-pure : (a : A) → Keeps env P (pure a)
  Keeps-pure a = Ensures-pure a (λ db h. h)

  pub Keeps-if :
      (b : Bool) (m n : Sync J A) → Keeps env P m → Keeps env P n → Keeps env P (if b then m else n)
  Keeps-if true m n km kn = km
  Keeps-if false m n km kn = kn

  pub Keeps-elim :
      (b : Bool) (m n : Sync J A)
      → Keeps env P m
      → Keeps env P n
      → Keeps env P (elim b [ true ↦ m | false ↦ n ])
  Keeps-elim true m n km kn = km
  Keeps-elim false m n km kn = kn

module _ {J A : Type 0} (env : Env J) where
  -- A query that no fault strikes.
  pub read-quiet :
      (f : Db J → Result A) (w : World J)
      → env.fault w.ticks ≡ none
      → read env f w ≡ (f w.db, record w { ticks = suc w.ticks })
  unfolding read exec statement
  read-quiet f w quiet = rw quiet

module _ {J A B : Type 0} where
  -- A method goes on from what stands before it.
  pub >>=-of_run :
      (m : Sync J A) (f : A → Sync J B) (w w' : World J) (a : A)
      → m w ≡ (ok a, w')
      → (m >>= f) w ≡ f a w'
  unfolding ◌>>=◌ continue
  >>=-of_run m f w w' a e = rw e

pub Ensures-weaken :
    {J A : Type 0} {env : Env J} {P P' : Db J → Type 0} {m : Sync J A} {Q Q' : A → Db J → Type 0}
    → ((db : Db J) → P' db → P db)
    → ((a : A) (db : Db J) → Q a db → Q' a db)
    → Ensures env P m Q
    → Ensures env P' m Q'
Ensures-weaken before after ensures = record {
  runs = λ quiet w p. ensures.runs quiet w (before w.db p);
  at = λ w a p e. after a _ (ensures.at w a (before w.db p) e);
}

pub Ensures-both :
    {J A : Type 0} {env : Env J} {P P' : Db J → Type 0} {m : Sync J A} {Q Q' : A → Db J → Type 0}
    → Ensures env P m Q
    → Ensures env P' m Q'
    → Ensures env (λ db. P db × P' db) m (λ a db. Q a db × Q' a db)
Ensures-both one other = record {
  runs = λ quiet w (p, _). one.runs quiet w p;
  at = λ w a (p, p') e. (one.at w a p e, other.at w a p' e);
}

-- What holds of the result so far can be used in the rest.
pub Ensures-given :
    {J A : Type 0} {env : Env J} {P : Db J → Type 0} {m : Sync J A} {Q : A → Db J → Type 0}
    {F : Type 0}
    → (F → Ensures env P m Q)
    → Ensures env (λ db. P db × F) m Q
Ensures-given rest = record {
  runs = λ quiet w (p, f). (rest f).runs quiet w p;
  at = λ w a (p, f) e. (rest f).at w a p e;
}
