-- ===== src/Results/Outcome.antt =====
-- Searches that fail or are cancelled. The token is asked whether the search is cancelled; its answer
-- to each check is an argument, since another thread cancels it.
use clipkitty.Base.{Option, none, some, ℕ, suc, Bool, String, if◌then◌else◌}
use clipkitty.Presentation.Items.{State}

pub data ClipKittyError : Type 0 where
  database_error : String → ClipKittyError
  data_inconsistency : String → ClipKittyError
  index_error : String → ClipKittyError
  not_initialized : ClipKittyError
  invalid_input : String → ClipKittyError
  cancelled : ClipKittyError

pub data Result {ℓ} (A : Type ℓ) : Type ℓ where
  ok : A → Result A
  err : ClipKittyError → Result A
  aborted : Result A  -- a panic, which aborts the program

-- The answer to the check with a number.
abbrev pub Token : Type 0
Token = ℕ → Bool

-- The checks that were made, and the cache.
pub record Progress : Type 0 where
  pub checks : ℕ
  pub cache : State

-- A step of a search.
abbrev pub M : Type 0 → Type 0
M A = Progress → Result A × Progress

-- The steps after one that ended.
abbrev pub after : {A B : Type 0} → Result A → (A → M B) → M B
after (ok a) f p = f a p
after (err e) f p = (err e, p)
after aborted f p = (aborted, p)

infixl 5 ◌>>=◌ ◌>>◌
abbrev pub ◌>>=◌ : {A B : Type 0} → M A → (A → M B) → M B
◌>>=◌ m f p = after (m p).0 f (m p).1

abbrev pub ◌>>◌ : {A B : Type 0} → M A → M B → M B
m >> k = m >>= λ _. k

abbrev pub pure : {A : Type 0} → A → M A
pure a p = (ok a, p)

-- `if token.is_cancelled() { return Err(Cancelled) }`.
unfoldable pub check : Token → M (Unit {0})
check token p =
    (if token p.checks then err cancelled else ok tt, record p { checks = suc p.checks })

-- A call that reads or changes the cache.
unfoldable pub cached : {A : Type 0} → (State → A × State) → M A
cached f p = (ok (f p.cache).0, record p { cache = (f p.cache).1 })

-- An answer of the database or of the index: a value, or the text of an error.
pub data Answer (A : Type 0) : Type 0 where
  value : A → Answer A
  failure : String → Answer A

unfoldable pub from_database : {A : Type 0} → Answer A → M A
from_database (value a) p = (ok a, p)
from_database (failure text) p = (err (database_error text), p)

-- What may panic.
abbrev pub or_abort : {A : Type 0} → Option A → M A
or_abort none p = (aborted, p)
or_abort (some a) p = (ok a, p)
