-- ===== src/Deployment/System/Refinement.antt =====
-- The server as one deployment sees it: whatever the server does, each deployment goes through
-- events of its own life.
use maos_core.Deployment.System.Lifecycle.{view, Stage}
use maos_core.Deployment.Store.{Store}
use maos_core.Deployment.System.{Job, System}
use maos_core.Common.{List, ℕ}

-- The stage of a deployment in the server.
unfoldable pub stage_of : ℕ → System → Stage
stage_of k s = view k s.store.deployments s.store.next_id
