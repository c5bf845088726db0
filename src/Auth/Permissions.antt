-- ===== src/Auth/Permissions.antt =====
-- handler/permissions.go: what each operation asks of the caller's token.
use maos_core.Common.{
  Bool, true, false, ◌||◌, List, [], ◌∷◌, Option, none, some, if◌then◌else◌, String, str_eq,
}
use maos_core.Auth.Token.{Token}

abbrev pub admin_operations : List String
admin_operations =
    "AdminListActors" ∷ "AdminGetActors" ∷ "AdminCreateActor" ∷ "AdminUpdateActor"
    ∷ "AdminDeleteActor" ∷ "AdminGetActorConfig" ∷ "AdminListApiTokens" ∷ "AdminCreateApiToken"
    ∷ "AdminDeleteApiToken" ∷ "AdminUpdateConfig" ∷ "AdminListDeployments" ∷ "AdminGetDeployment"
    ∷ "AdminGetDeploymentResult" ∷ "AdminCreateDeployment" ∷ "AdminUpdateDeployment"
    ∷ "AdminDeleteDeployment" ∷ "AdminSubmitDeployment" ∷ "AdminPublishDeployment"
    ∷ "AdminRejectDeployment" ∷ "AdminRestartDeployment" ∷ "AdminListPodMetrics"
    ∷ "AdminListReferenceConfigSuites" ∷ "AdminSyncReferenceConfigSuites" ∷ "AdminGetSetting"
    ∷ "AdminUpdateSetting" ∷ "AdminListSecrets" ∷ "AdminUpdateSecret" ∷ "AdminDeleteSecret" ∷ []

unfoldable pub contains : List String → String → Bool
contains [] s = false
contains (t ∷ ts) s = str_eq t s || contains ts s

-- The map `Permissions`: the entry of an operation.
unfoldable pub required_permissions : String → Option (List String)
unfolding contains
required_permissions op =
    if contains ("CreateInvocationAsync" ∷ "CreateInvocationSync" ∷ []) op
    then some ("create:invocation" ∷ [])
    else if contains ("GetNextInvocation" ∷ "ReturnInvocationResponse" ∷ []) op
    then some ("read:invocation" ∷ [])
    else if str_eq op "ListEmbeddingModels"
    then some ("read:completion" ∷ [])
    else if str_eq op "CreateCompletion"
    then some ("create:completion" ∷ [])
    else if str_eq op "GetMCPServers"
    then some ("read:mcp" ∷ [])
    else if contains admin_operations op
    then some ("admin" ∷ [])
    else none

-- The loop over the required permissions.
unfoldable pub holds_all : Token → List String → Bool
unfolding contains
holds_all t [] = true
holds_all t (p ∷ ps) = let rest = holds_all t ps in if contains t.permissions p then rest else false

abbrev pub check_required : Token → Option (List String) → Option Token
check_required t none = none
check_required t (some required) = if holds_all t required then some t else none

-- `none` is the nil token, which the handlers answer with 401.
unfoldable pub validate_permissions : Option Token → String → Option Token
unfolding required_permissions holds_all
validate_permissions none operation = none
validate_permissions (some t) operation = check_required t (required_permissions operation)
