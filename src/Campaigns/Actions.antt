-- ===== src/Campaigns/Actions.antt =====
-- A request handler: it reads and writes the store and returns or throws. What it asks of the
-- outside is a `World`: the clock, the ids that the database generates, `Math.random`, the
-- grouping of rows, the engine registry and the engines. The n-th question gets the n-th answer.
use notifymain_wa.Prelude.{ℕ, suc, ◌≡◌, refl, ◌⊎◌, inl, inr, Bool, true, false, Option, none, some}
use notifymain_wa.Text.{Str}
use notifymain_wa.Phone.{Reason}
use notifymain_wa.Campaigns.Data.{CampaignStatus, Store, Post}
use notifymain_wa.Campaigns.Progress.{GroupBy}

-- The answer of an engine: the message id of the response, if it is a string, or an error.
pub data PostResult : Type 0 where
  accepted : Option Str → PostResult
  refused : (message : Str) → PostResult

pub record World : Type 0 where
  pub now : ℕ → ℕ
  pub new_id : ℕ → ℕ
  pub pick : ℕ → (size : ℕ) → ℕ  -- Math.floor(Math.random() * size)
  pub group_by : GroupBy
  pub instance_for_session : ℕ → Option ℕ → Option Str
  pub instance_by_id : ℕ → ℕ → Option Str
  pub engine_accessible_url : Option Str → Option Str
  pub post : ℕ → Post → PostResult

-- The exceptions of CampaignsService and of ContactsService, and that of the database for a row that breaks a unique
-- key.
pub data Failure : Type 0 where
  campaign_not_found session_not_found : Failure
  session_not_connected invalid_contact_ids : Failure
  wrong_status : CampaignStatus → Failure
  no_recipients nothing_resolved nothing_failed : Failure
  malformed_csv duplicate_key null_column : Failure
  contact_not_found phone_taken conversation_not_found already_linked : Failure
  invalid_phone : Reason → Failure

pub data Result (A : Type 0) : Type 0 where
  ok : A → Result A
  throws : Failure → Result A

abbrev pub Action : Type 0 → Type 0
Action A = Store → Result A × Store

module _ {A B : Type 0} where
  abbrev pub and_then : Result A → (A → Action B) → Action B
  and_then (ok a) f = f a
  and_then (throws e) f = λ s. (throws e, s)

  infixl 5 ◌>>=◌ ◌>>◌
  abbrev pub ◌>>=◌ : Action A → (A → Action B) → Action B
  m >>= f = λ s. let (r, s') = m s in and_then r f s'

  abbrev pub ◌>>◌ : Action A → Action B → Action B
  m >> k = m >>= λ _. k

module _ {A : Type 0} where
  abbrev pub pure : A → Action A
  pure a s = (ok a, s)

  abbrev pub throw : Failure → Action A
  throw e s = (throws e, s)

  abbrev pub lift : Result A → Action A
  lift r s = (r, s)

  -- The value found, or an exception.
  abbrev pub found_or : Option A → Failure → Action A
  found_or none e = throw e
  found_or (some a) e = pure a

abbrev pub get : Action Store
get s = (ok s, s)

abbrev pub modify : (Store → Store) → Action (Unit {0})
modify f s = (ok tt, f s)

abbrev pub require : Bool → Failure → Action (Unit {0})
require true e = pure tt
require false e = throw e

-- `new Date()`, and an id of the database.
abbrev pub read_clock : World → Action ℕ
read_clock w s = (ok (w.now s.draws), record s { draws = suc s.draws })

abbrev pub generate_id : World → Action ℕ
generate_id w s = (ok (w.new_id s.draws), record s { draws = suc s.draws })

module _ {A : Type 0} where
  pub Result-cases : (r : Result A) → ((e : Failure) × (r ≡ throws e)) ⊎ ((a : A) × (r ≡ ok a))
  Result-cases (ok a) = inr (a, refl)
  Result-cases (throws e) = inl (e, refl)

-- An action that leaves the store alone, and what follows it.
pub bind_idle :
    {A B : Type 0} (P : Store → Type 0) (s : Store) (r : Result A × Store) (k : A → Action B)
    → r.1 ≡ s
    → P s
    → ((a : A) → P (k a s).1)
    → P (and_then r.0 k r.1).1
bind_idle P s (ok a, s') k e p h = rw e (h a)
bind_idle P s (throws x, s') k e p h = rw e p

pub PostResult-cases :
    (r : PostResult) → ((e : Str) × (r ≡ refused e)) ⊎ ((x : Option Str) × (r ≡ accepted x))
PostResult-cases (refused e) = inl (e, refl)
PostResult-cases (accepted x) = inr (x, refl)
