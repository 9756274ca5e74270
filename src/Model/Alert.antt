-- ===== src/Model/Alert.antt =====
-- internal/model/alert.go
use security_system_gsb.Common.{
  ℕ, String, Bool, Option, none, some, List, ◌==◌, nat_eq, if◌then◌else◌,
}

abbrev pub severity_info : ℕ
severity_info = 1

abbrev pub severity_low : ℕ
severity_low = 2

abbrev pub severity_medium : ℕ
severity_medium = 3

abbrev pub severity_high : ℕ
severity_high = 4

abbrev pub severity_critical : ℕ
severity_critical = 5

abbrev pub status_new : ℕ
status_new = 1

abbrev pub status_assigned : ℕ
status_assigned = 2

abbrev pub status_processing : ℕ
status_processing = 3

abbrev pub status_resolved : ℕ
status_resolved = 4

abbrev pub status_closed : ℕ
status_closed = 5

abbrev pub status_escalated : ℕ
status_escalated = 6

-- The map `SLADuration`, in hours; `none` is a key that is missing.
unfoldable pub sla_duration : ℕ → Option ℕ
sla_duration severity =
    if severity == severity_info
    then some 168
    else if severity == severity_low
    then some 72
    else if severity == severity_medium
    then some 24
    else if severity == severity_high
    then some 8
    else if severity == severity_critical
    then some 2
    else none

pub record SecurityAlert : Type 0 where
  pub id : ℕ
  pub title : String
  pub description : String
  pub source : String
  pub severity : ℕ
  pub status : ℕ
  pub assignee_id : Option ℕ
  pub creator_id : ℕ
  pub sla_deadline : ℕ
  pub sla_breached : Bool
  pub escalation_count : ℕ
  pub resolved_at : Option ℕ
  pub closed_at : Option ℕ
  pub tags : List String
  pub created_at : ℕ
  pub updated_at : ℕ

pub record AlertComment : Type 0 where
  pub id : ℕ
  pub alert_id : ℕ
  pub author_id : ℕ
  pub content : String
  pub created_at : ℕ

pub record CreateAlertRequest : Type 0 where
  pub title : String
  pub description : String
  pub source : String
  pub severity : ℕ
  pub tags : List String

-- A field that the request leaves out is "", 0, nil or no tag.
pub record UpdateAlertRequest : Type 0 where
  pub title : String
  pub description : String
  pub severity : ℕ
  pub status : ℕ
  pub assignee_id : Option ℕ
  pub tags : List String

pub record AddCommentRequest : Type 0 where
  pub content : String

-- A parameter that the query leaves out, or that is negative, is "", 0 or none.
pub record AlertQueryParams : Type 0 where
  pub severity : ℕ
  pub status : ℕ
  pub assignee_id : ℕ
  pub source : String
  pub sla_breached : Option Bool
  pub page : ℕ
  pub page_size : ℕ
