-- ===== src/Auth/Users.antt =====
-- The users of the tenants (backend/src/db/models/user.rs).
use mini_siem_project.Prelude.{ℕ, String}
use mini_siem_project.Prelude.Int.{ℤ}

pub record User : Type 0 where
  pub id : ℕ
  pub tenant_id : String
  pub email : String
  pub password_hash : String
  pub role : String
  pub created_at : ℤ
  pub updated_at : ℤ

pub record UserResponse : Type 0 where
  pub id : ℕ
  pub tenant_id : String
  pub email : String
  pub role : String

unfoldable pub user_response : User → UserResponse
user_response user = record {
  id = user.id;
  tenant_id = user.tenant_id;
  email = user.email;
  role = user.role;
}
