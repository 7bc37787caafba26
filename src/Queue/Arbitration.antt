-- ===== src/Queue/Arbitration.antt =====
-- src/ai_pr_orchestrator/v3/queue.py: the arbitration between foremen that claim an issue at the
-- same time, and the calls on the comments of the issue in any order.
use aipro.Prelude.{
  ℕ, suc, String, Bool, Option, List, [], ◌∷◌, ◌++◌, map, filter, find, In, not, ◌≡◌, ◌==◌,
  string_eq, nat_eq, ltb, if◌then◌else◌, Result, ok, err, claim_conflict,
}

-- `has_block` is whether `_block_re` finds a state block in the body.
pub record Comment : Type 0 where
  pub id : ℕ
  pub user : String
  pub has_block : Bool

-- `_state_comments`, from the comments of the issue
unfoldable pub state_comments : String → List Comment → List Comment
state_comments actor cs = filter (λ c. c.user == actor) cs

-- `_find_state_comment`
pub find_state_comment : String → List Comment → Option Comment
unfolding state_comments
find_state_comment actor cs = find (λ c. c.has_block) (state_comments actor cs)

unfoldable pub block_comments : String → List Comment → List Comment
unfolding state_comments
block_comments actor cs = filter (λ c. c.has_block) (state_comments actor cs)

-- `min(comments, key=lambda c: c.id)`: the first of the least.
unfoldable pub earliest : Comment → List Comment → Comment
earliest best [] = best
earliest best (c ∷ cs) = let next = (if ltb c.id best.id then c else best) in earliest next cs

-- `_delete_duplicate_comments`: the ids that it deletes
abbrev pub duplicate_ids : ℕ → List Comment → List ℕ
duplicate_ids authoritative cs = map (λ c. c.id) (filter (λ c. not (c.id == authoritative)) cs)

-- `_settle_after_create`: the comments that are found to be deleted, and whether the claim holds.
-- `created` is the id of the comment that was posted.
unfoldable pub settle_among : List Comment → ℕ → List ℕ × Result (Unit {0})
settle_among [] created = ([], err claim_conflict)
settle_among (c ∷ rest) created =
    let authoritative = earliest c rest in
    (
      duplicate_ids authoritative.id (c ∷ rest),
      if created == authoritative.id then ok tt else err claim_conflict,
    )

unfoldable pub settle_after_create : String → List Comment → ℕ → List ℕ × Result (Unit {0})
settle_after_create actor cs created = settle_among (block_comments actor cs) created

-- The comments of an issue with the foremen at work on it: `doomed` are the comments that some
-- foreman found to be duplicates, `claimants` the comments whose posters hold the claim.
pub record World : Type 0 where
  pub comments : List Comment
  pub next_id : ℕ
  pub doomed : List ℕ
  pub claimants : List ℕ

abbrev pub won : ℕ → Result (Unit {0}) → List ℕ → List ℕ
won k (ok _) ks = k ∷ ks
won k (err e) ks = ks

-- One call on the service by anybody: a comment is posted, which gets the next id; a foreman that
-- posted `k` reads the comments and settles; a foreman deletes a duplicate that it found.
pub data Step (actor : String) : World → World → Type 0 where
  posts :
      (w : World) (c : Comment)
      → c.id ≡ w.next_id
      → Step actor w (record w { comments = w.comments ++ c ∷ []; next_id = suc w.next_id })
  settles :
      (w : World) (k : ℕ)
      → Step actor w (record w {
        doomed = (settle_after_create actor w.comments k).0 ++ w.doomed;
        claimants = won k (settle_after_create actor w.comments k).1 w.claimants;
      })
  deletes :
      (w : World) (d : ℕ)
      → In d w.doomed
      → Step actor w (record w { comments = filter (λ c. not (c.id == d)) w.comments })

-- The worlds that calls lead to from an issue that has `next_id` as the next comment's id and no
-- state comment of the actor.
pub data Reachable (actor : String) : World → Type 0 where
  fresh :
      (cs : List Comment) (next_id : ℕ)
      → block_comments actor cs ≡ []
      → Reachable actor (record { comments = cs; next_id = next_id; doomed = []; claimants = [] })
  then_step : (w w' : World) → Reachable actor w → Step actor w w' → Reachable actor w'
