-- ===== src/Models.antt =====
-- pkg/models/config.go and group.go: the rows of the model configuration, as far as the peak hours and
-- the groups read them. Of a member's weight only its sign is read.
pub mod PeakHours
pub mod Clock
pub mod Window
pub mod Groups
pub mod Membership
pub mod Examples
use llm_supervisor_proxy.CredentialLb.Selector.{CredentialRef}
use llm_supervisor_proxy.Support.Int.{ℤ}
use llm_supervisor_proxy.Support.{Bool, String, List}

pub record GroupMember : Type 0 where
  pub model_id : String
  pub weight_positive : Bool
  pub backup_only : Bool

pub record ModelConfig : Type 0 where
  pub id : String
  pub enabled : Bool
  pub fallback_chain : List String
  pub internal : Bool
  pub credentials : List CredentialRef
  pub release_stream_chunk_deadline : ℤ
  pub peak_hour_enabled : Bool
  pub peak_hour_start : String
  pub peak_hour_end : String
  pub peak_hour_timezone : String
  pub peak_hour_model : String
  pub secondary_upstream_model : String
  pub exclude_from_ultimate_switching : Bool
  pub kind : String
  pub members : List GroupMember
  pub shadow_model_id : String
