-- ===== src/Objects/Auth.antt =====
-- packages/rust/armonik/src/objects/auth: the current user. The request is empty.
use armoni_k_api.Common.{String, ◌≡◌, refl, Option, List, []}
use armoni_k_api.Objects.Convert.{to_option, from_option}

pub record User : Type 0 where
  pub username : String
  pub roles : List String
  pub permissions : List String

pub record V3User : Type 0 where
  pub username : String
  pub roles : List String
  pub permissions : List String

abbrev pub default_user : User
default_user = record { username = ""; roles = []; permissions = [] }

unfoldable pub user_into : User → V3User
user_into r = record { username = r.username; roles = r.roles; permissions = r.permissions }

unfoldable pub user_from : V3User → User
user_from w = record { username = w.username; roles = w.roles; permissions = w.permissions }

pub user_back : (r : User) → user_from (user_into r) ≡ r
unfolding user_from user_into
user_back r = refl

pub record CurrentUser : Type 0 where
  pub user : User

pub record V3CurrentUser : Type 0 where
  pub user : Option V3User

abbrev pub default_current_user : CurrentUser
default_current_user = record { user = default_user }

unfoldable pub current_user_into : CurrentUser → V3CurrentUser
current_user_into r = record { user = to_option user_into r.user }

unfoldable pub current_user_from : V3CurrentUser → CurrentUser
current_user_from w = record { user = from_option user_from default_user w.user }

pub current_user_back : (r : CurrentUser) → current_user_from (current_user_into r) ≡ r
unfolding current_user_from current_user_into
current_user_back r = λ i. record { user = user_back r.user i }
