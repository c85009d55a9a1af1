-- ===== src/Spend/Inv/Defs.antt =====
-- What holds of the tables: receipts form chains of attempts, and accounts count them.
use symbiotic_foundation.Base.{
  ℕ, ◌+◌, ◌-◌, ◌^◌, ◌≤◌, String, Bool, true, false, not, ◌&&◌, ◌||◌, Option, none, some, List, [],
  ◌∷◌, leb, nat_beq, ◌==◌, nat_eq, string_eq, is_some, is_none, if◌then◌else◌, get, get_or, ◌≡◌,
}
use symbiotic_foundation.Base.Maybe.{option_eq}
use symbiotic_foundation.Spend.Types.{released, settled, same_state}
use symbiotic_foundation.Spend.Store.{Row, Db, find, latest, is_active, is_of}
use symbiotic_foundation.Spend.Finish.{is_measured}

abbrev pub used_of : List (String × ℕ) → String → ℕ
used_of accounts account = get_or (get accounts account) 0

abbrev pub is_below : ℕ → Option ℕ → Bool
is_below used none = nat_beq used 0
is_below used (some limit) = leb used limit

module _ {J : Type 0} where
  abbrev pub is_released : Row J → Bool
  is_released row = same_state row.state released

  -- How many requests of an account are reserved: its receipts that are not released.
  unfoldable pub held : String → List (Row J) → ℕ
  held account [] = 0
  held account (row ∷ rows) =
      (if row.account == account && not (is_released row) then 1 else 0) + held account rows

  -- An attempt that may have reached the provider, where the invocation has a ceiling.
  abbrev pub counted : Row J → ℕ
  counted row = if is_some row.attempt_limit && not row.pre_dispatch_released then 1 else 0

  unfoldable pub attempts : String → String → List (Row J) → ℕ
  attempts account invocation [] = 0
  attempts account invocation (row ∷ rows) =
      (if is_of account invocation row then counted row else 0) + attempts account invocation rows

  -- The columns agree with the reservation.
  abbrev pub is_named : Row J → Bool
  is_named row =
      row.reservation.reference == row.reference
      && row.reservation.account == row.account
      && row.reservation.invocation == row.invocation
      && row.reservation.binding == row.binding

  -- The state is the one that the evidence allows.
  abbrev pub is_proved : Row J → Bool
  is_proved row =
      (not row.pre_dispatch_released || is_released row)
      && (not (is_released row) || not (is_some row.output))
      && (not (same_state row.state settled) || is_measured row.usage)

  -- An attempt goes on under the binding and the ceiling of its predecessor.
  abbrev pub follows : Row J → Option (Row J) → Bool
  follows row none = true
  follows row (some p) =
      p.binding == row.binding && (is_none p.attempt_limit || p.attempt_limit == row.attempt_limit)

  -- A receipt among those that are older.
  pub record IsAttempt (row : Row J) (rows : List (Row J)) : Type 0 where
    pub single : find rows row.reference ≡ none
    pub alone : is_active rows row.account row.invocation ≡ false
    pub tally : row.attempts_used ≡ counted row + attempts row.account row.invocation rows
    pub below : is_below row.attempts_used row.attempt_limit ≡ true
    pub continues : follows row (latest rows row.account row.invocation) ≡ true
    pub named : is_named row ≡ true
    pub proved : is_proved row ≡ true

  abbrev pub Chained : List (Row J) → Type 0
  Chained [] = Unit
  Chained (row ∷ rows) = IsAttempt row rows × Chained rows

  pub record IsSound (db : Db J) : Type 0 where
    pub chained : Chained db.receipts
    pub balanced : (a : String) → used_of db.accounts a ≡ held a db.receipts
    pub bounded : (a : String) → used_of db.accounts a ≤ 2 ^ 63 - 1
