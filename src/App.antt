-- ===== src/App.antt =====
-- globocom/tsuru/app: apps, their teams, units and environments, and how they are created.
pub mod Teams
pub mod Env
pub mod Units
pub mod Creation
pub mod Examples
use docker_stuff.Base.{ℕ, Bool, List, Bytes}

-- `bind.EnvVar`
pub record EnvVar : Type 0 where
  pub name : Bytes
  pub value : Bytes
  pub public : Bool
  pub instance_name : Bytes

-- `Unit`, without the pointer to the app.
pub record AppUnit : Type 0 where
  pub name : Bytes
  pub kind : Bytes
  pub machine : ℕ
  pub instance_id : Bytes
  pub ip : Bytes
  pub state : Bytes
  pub quota_item : Bytes

-- `App`, without the hook runner. A nil `Env` and an empty one are alike.
pub record App : Type 0 where
  pub env : List (Bytes × EnvVar)
  pub platform : Bytes
  pub name : Bytes
  pub ip : Bytes
  pub cname : Bytes
  pub units : List AppUnit
  pub teams : List Bytes
  pub owner : Bytes
  pub state : Bytes
  pub deploys : ℕ
