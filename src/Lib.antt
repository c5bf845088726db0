-- ===== src/Lib.antt =====
-- maos-core: the coordination service of a multi-agent system. Actors submit invocations for other
-- actors, whose workers take them from a queue in the database and send back results; and
-- administrators publish deployments of the actors' configurations.
--
-- Models is dbaccess/dbsqlc/models.go: the rows of the tables, whose ids and times (int64 in the
-- code) are natural numbers.
--
-- Invocation.Queue is dbaccess/dbsqlc/invocation.sql.go: each statement is a function on the table
-- `invocations` (InvocationInsert is invocation_insert, and so on). Invocation.Dispatcher is
-- invocation/dispatcher.go: Listen and Dispatch are functions, which run with no Close between their
-- operations, and WaitFor is the relation Wakes, since a select takes any case that is ready.
-- Invocation.Dispatcher.Concurrent has the same calls and Close cut at their atomic operations, in any
-- order. Invocation.Manager is invocation/manager.go: InsertInvocation (insert_invocation), GetInvocationById and
-- ExecuteInvocationSync (Manager.Waiting), and GetNextInvocation, ReturnInvocationResponse and
-- ReturnInvocationError (Manager.Work). The handlers take the database and the notifications sent so
-- far, and flags that say which calls of the database fail. Those that wait take the events (or the
-- rounds) that happen to them as a list: they answer `none` as long as they wait, so no fuel is
-- needed. The JSON library is the record Codec, of which some results ask that it reads back what it
-- writes.
--
-- Deployment.Store is dbaccess/dbsqlc/deployment.sql.go and config_suite.sql.go, with the unique
-- index on names of migrate/migration/010. Deployment.Manage is the handlers of
-- admin/deployment_manage.go, Deployment.Job the job that PublishDeployment starts, in the three
-- parts between which others run, and Deployment.System puts them together: the actions of the
-- administrators, the parts of the jobs and the stop of the process in any order. A transaction that
-- is rolled back leaves the store as it was. The cluster, the suite store and the rotation of the
-- API tokens only succeed or fail here. The texts of errors stand without the cause that the code
-- appends. Deployment.System.Lifecycle is an independent description of a deployment's life, as the
-- events between its stages, which Deployment.System.Refinement compares the server with.
--
-- Auth is middleware/auth.go, token_cache.go and token_fetch.go, and handler/permissions.go: the
-- bearer check, the fetch of a token, which the cache may answer, and the permission table. What the
-- cache holds is an argument.
--
-- Admin is admin/actor_manage.go and token_manage.go and the rotation of the API keys in
-- admin/deployment_manage.go (Admin.Actors and Admin.Tokens), with the statements of
-- dbaccess/dbsqlc/actor.sql.go, api_token.sql.go and queue.sql.go on the record Registry
-- (Admin.Registry): the unique indexes, the foreign keys and the check on a queue's name of
-- migrate/migration are among the conditions of the statements. Admin.Operations runs them one after another. The texts that GenerateAPIToken
-- draws are arguments. Admin.Listing is the pages of ListActors and ListApiTokens, where the database's
-- order of two texts is an argument and sums wrap around as int64.
--
-- Configuration is handler/get_config.go and admin/config_manage.go with the statements of
-- dbaccess/dbsqlc/config.sql.go, on the store of the deployments; Configuration.Unchanged lets the
-- server of the deployments and UpdateConfig alternate. The JSON library is the record ContentCodec.
-- Admin.Kube is admin/kube_config.go, and what admin/deployment_manage.go reads of a content for the
-- cluster; a content is the list of its entries in the order of `range`, and the regular expressions
-- are the record Formats.
--
-- Cluster is UpdateDeploymentSet of k8s/controller.go with all that it calls: Cluster.Objects builds the
-- objects, and Cluster runs the loop over the set and the deletions. The cluster is a type of states
-- with the calls of client-go (the record Api), and Cluster.Laws says what they promise of the objects
-- with the label created-by=maos; Cluster.Examples has a cluster that keeps these laws.
--
-- Util is util/comparable.go (Clamp), util/tokenizer.go and util/version.go; parse_int and format_int
-- of Common.Decimal stand for strconv, with the bounds of the given number of bits.
--
-- Statements are atomic, as in the database under its default isolation for single statements. Not
-- modelled: the list of the deployments, the SQL text that the driver sends, RestartDeployment, the
-- migrations, secrets and metrics of k8s/controller.go, the LLM adapters, the suite store, MCP, the
-- generated API and the command lines; the packages internal/notifier, listener, baseservice and
-- startstop, which are copies of the packages of the River queue library; labels that are nil in
-- k8s/controller.go, which the only caller never gives; and a second Close that finds the flag unset
-- at the same time as the first, which panics.
pub mod Common
pub mod Util
pub mod Models
pub mod Invocation
pub mod Deployment
pub mod Auth
pub mod Admin
pub mod Configuration
pub mod Cluster
