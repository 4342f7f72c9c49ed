-- ===== src/Provisioner/Custody/Kept.antt =====
-- The strategies of internal/provisioner/strategy/redis and secret clean up what they provide, so that
-- no Secret of theirs is leaked.
use score_orchestrator.Provisioner.Strategy.{Strategy}
