-- ===== src/Domain/Identity.antt =====
-- src/ai_pr_orchestrator/v3/domain.py: the text `owner/repo#number` that names a work item.
use Prim.Native.Nat.{◌/◌, ◌%◌}
use Prim.Native.String.{◌++◌ as join}
use aipro.Prelude.{ℕ, zero, suc, String, ltb, if◌then◌else◌, ◌==◌, nat_eq}
use aipro.Domain.{GitHubIssueRef}

abbrev pub digit : ℕ → String
digit n =
    if n == 0
    then "0"
    else if n == 1
    then "1"
    else if n == 2
    then "2"
    else if n == 3
    then "3"
    else if n == 4
    then "4"
    else if n == 5
    then "5"
    else if n == 6
    then "6"
    else if n == 7
    then "7"
    else if n == 8
    then "8"
    else "9"

-- `str(n)`: each round takes a digit off, so `n + 1` rounds are enough.
unfoldable pub decimal_from : ℕ → ℕ → String
decimal_from zero n = ""
decimal_from (suc fuel) n =
    let front = decimal_from fuel (n / 10) in
    if ltb n 10 then digit n else join front (digit (n % 10))

unfoldable pub decimal : ℕ → String
unfolding decimal_from
decimal n = decimal_from (suc n) n

unfoldable pub slug : GitHubIssueRef → String
unfolding decimal
slug r = join r.owner (join "/" (join r.repo (join "#" (decimal r.number))))
