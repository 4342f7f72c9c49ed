-- ===== src/Provisioner/ConvergesTests.antt =====
-- A new claim of the type redis, at a server that takes every update.
use score_orchestrator.Base.{Option, none, some}
use score_orchestrator.Base.Result.{Result, ok, err}
use score_orchestrator.Api.Claim.{ResourceClaim}
use score_orchestrator.Workloads
use score_orchestrator.Provisioner.Reconcile.{ApiError, not_found, Client}
use score_orchestrator.Provisioner.Secrets.{Secret}
use score_orchestrator.Provisioner.SecretWorld.{World}

-- A server that takes every update.
abbrev accept :
    Option ResourceClaim → Option Secret → ResourceClaim → World × Result ApiError ResourceClaim
accept none x c = ((none, x), err not_found)
accept (some b) x c =
    ((some (record c { status = b.status }), x), ok (record c { status = b.status }))

abbrev accept_status :
    Option ResourceClaim → Option Secret → ResourceClaim → World × Result ApiError ResourceClaim
accept_status none x c = ((none, x), err not_found)
accept_status (some b) x c =
    ((some (record b { status = c.status }), x), ok (record b { status = c.status }))

abbrev stored : Option ResourceClaim → Result ApiError ResourceClaim
stored none = err not_found
stored (some c) = ok c

abbrev accepting : Client World
accepting = record {
  get = λ w. stored w.0;
  update = λ w c. accept w.0 w.1 c;
  update_status = λ w c. accept_status w.0 w.1 c;
}
