-- ===== src/Health.antt =====
-- Health assessments (src/domain/entities/health.py). Python's float is the parameter `Float`.
use ai_sre_platform_for_auto.Common.{ℕ, Text, Option, List}

pub record Finding (Float : Type 0) : Type 0 where
  pub id : Option ℕ
  pub category : Text
  pub severity : Text
  pub metric : Text
  pub threshold : Float
  pub actual_value : Float
  pub message : Text
  pub recommendation : Text

pub record ServerHealth (Float : Type 0) : Type 0 where
  pub id : Option ℕ
  pub server_id : ℕ
  pub overall_status : Text
  pub health_score : Float
  pub findings : List (Finding Float)
  pub evaluation_timestamp : ℕ
