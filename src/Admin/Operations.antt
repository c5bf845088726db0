-- ===== src/Admin/Operations.antt =====
-- The administrators' operations on the registry, one after another: the handlers of
-- admin/actor_manage.go and admin/token_manage.go, and the rotations of the deployments.
pub mod Frames
pub mod Names
pub mod Reuse
pub mod Consistency
use maos_core.Admin.Tokens.{
  rotate_actor_api_keys, ActorConfig, Draws, delete_api_token, ApiTokenCreate, create_api_token,
}
use maos_core.Common.Decimal.{Text}
use maos_core.Admin.Actors.{
  delete_actor, ActorUpdate, update_actor, ActorCreate, create_actor, CreateFaults,
}
use maos_core.Admin.Registry.{Registry}
use maos_core.Common.{Bool, List, [], ◌∷◌, ℕ}

pub data Operation : Type 0 where
  create : CreateFaults → ℕ → ActorCreate → Operation
  update : Bool → ℕ → ActorUpdate → Operation
  remove : Bool → ℕ → Operation
  create_token : Bool → ℕ → Text → ApiTokenCreate → Operation
  delete_token : Bool → Text → Operation
  rotate : Draws → List ActorConfig → Operation

unfoldable pub operate : Operation → Registry → Registry
operate (create faults now body) r = (create_actor faults now body r).0
operate (update fails id body) r = (update_actor fails id body r).0
operate (remove fails id) r = (delete_actor fails id r).0
operate (create_token fails now generated body) r = (create_api_token fails now generated body r).0
operate (delete_token fails id) r = (delete_api_token fails id r).0
operate (rotate d configs) r = (rotate_actor_api_keys d configs r).0

unfoldable pub operate_all : List Operation → Registry → Registry
unfolding operate
operate_all [] r = r
operate_all (o ∷ os) r = operate_all os (operate o r)
