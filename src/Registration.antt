-- ===== src/Registration.antt =====
-- internal/controller/registration.go: the entry that the gateway authenticates and limits by.
pub mod Laws
use agentgateway_educates_op.Base.{
  ℕ, String, Bool, true, false, ◌&&◌, Option, none, some, List, [], ◌∷◌, ◌++◌, Text, codes, Result,
  ok, err, text_eq, lookup, Dict, length, ◌==◌, insert,
}
use agentgateway_educates_op.Base.Int.{ℤ, pos}
use agentgateway_educates_op.Api.Types.{BudgetWindow, unset, second, minute, hour, day, month, year}
use agentgateway_educates_op.Format.{format_int}
use agentgateway_educates_op.Kube.{Packages, RegistrationEntry, Answer, other_failure}

abbrev pub metadata_key_session : String
metadata_key_session = "session"

abbrev pub metadata_key_token_budget : String
metadata_key_token_budget = "tokenBudget"

abbrev pub metadata_key_expires_at : String
metadata_key_expires_at = "expiresAt"

abbrev pub metadata_key_budget_window : String
metadata_key_budget_window = "budgetWindow"

abbrev pub metadata_key_cost_budget : String
metadata_key_cost_budget = "costBudget"

pub record RegistrationInputs : Type 0 where
  pub key_hash : Text
  pub session_name : String
  pub token_budget : Option ℤ
  pub cost_micro_dollars : Option ℕ
  pub window : BudgetWindow
  pub expires_at : ℤ

-- `string(window)`
abbrev pub window_text : BudgetWindow → Text
window_text unset = []
window_text second = codes "second"
window_text minute = codes "minute"
window_text hour = codes "hour"
window_text day = codes "day"
window_text month = codes "month"
window_text year = codes "year"

-- `metadata[key] = strconv.FormatInt(*value, 10)` behind the nil test.
abbrev pub put_number : String → Option ℤ → Dict Text → Dict Text
put_number key none metadata = metadata
put_number key (some n) metadata = insert key (format_int n) metadata

abbrev pub as_int64 : Option ℕ → Option ℤ
as_int64 none = none
as_int64 (some n) = some (pos n)

-- Every entry of the first map is in the second.
unfoldable pub metadata_within : Dict Text → Dict Text → Bool
metadata_within [] other = true
metadata_within ((k, v) ∷ m) other =
    elim (lookup k other) [ none ↦ false | some w ↦ text_eq v w ] && metadata_within m other

unfoldable pub entry_equals : RegistrationEntry → RegistrationEntry → Bool
unfolding metadata_within
entry_equals e other =
    text_eq e.key_hash other.key_hash
    && (length e.metadata == length other.metadata && metadata_within e.metadata other.metadata)

module _ (p : Packages) where
  unfoldable pub build_registration : RegistrationInputs → RegistrationEntry
  build_registration i = record {
    key_hash = i.key_hash;
    metadata = put_number metadata_key_cost_budget (as_int64 i.cost_micro_dollars) (
        put_number metadata_key_token_budget i.token_budget (
          (metadata_key_session, codes i.session_name)
          ∷ (metadata_key_expires_at, p.format_rfc3339 i.expires_at)
          ∷ (metadata_key_budget_window, window_text i.window)
          ∷ []));
  }

  unfoldable pub marshal_registration : RegistrationEntry → Answer Text
  marshal_registration e = ok (p.json_marshal e)

  unfoldable pub parse_registration : Text → Answer RegistrationEntry
  parse_registration raw = elim (p.json_unmarshal raw) [
    | some e ↦ ok e
    | none ↦ err (record { kind = other_failure; message = codes "parse key registration" })
  ]
