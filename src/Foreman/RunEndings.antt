-- ===== src/Foreman/RunEndings.antt =====
-- src/ai_pr_orchestrator/v3/foreman.py: the endings of `run_loop`, `run_work` and `resume_work`.
use aipro.Prelude.{◌⊎◌, inl, not}
use aipro.Foreman.Act.{Act}
use aipro.Foreman.Development.{Coded, failed, coded, Developed, finished, reviewed}
use aipro.Foreman.Endings.{Justified}

abbrev IfFailed : Coded → Type 0
IfFailed (failed o) = Justified o
IfFailed (coded state n) = Unit {0}

abbrev IfFinished : Developed → Type 0
IfFinished (finished o) = Justified o
IfFinished (reviewed state report n) = Unit {0}
