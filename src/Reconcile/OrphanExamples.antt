-- ===== src/Reconcile/OrphanExamples.antt =====
-- The theorems on orphans at small inputs.
use aipro.Prelude.{is_some, ◌&&◌, [], ◌∷◌, ◌≡◌, contains, filter, map, string_eq}
use aipro.Config.{default_cleanup_config}
use aipro.Reconcile.Planner.{plan_orphan_sessions}
use aipro.Reconcile.Orphans.{clean_session}
use aipro.Reconcile.Helpers.{is_orphan_session}
use aipro.Reconcile.HelperAgreement.{plan_orphan_sessions-is_orphan_session}
use aipro.Reconcile.Samples.{at, own, stray}

plan_orphan_sessions-is_orphan_session_example :
    plan_orphan_sessions default_cleanup_config (at 200000) ("own" ∷ []) (own ∷ stray ∷ [])
    ≡ map clean_session (
        filter
          (λ s.
            is_some s.work_item_id
            && is_orphan_session s (contains s.session_id ("own" ∷ [])) (at 200000) 7200)
          (own ∷ stray ∷ []))
plan_orphan_sessions-is_orphan_session_example =
    plan_orphan_sessions-is_orphan_session default_cleanup_config (at 200000) ("own" ∷ [])
      (own ∷ stray ∷ [])
