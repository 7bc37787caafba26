-- ===== src/Queue/RaceExamples.antt =====
-- Two foremen race for an issue: both post a state comment before either settles.
use aipro.Prelude.{ℕ, true, List, [], ◌∷◌, ◌≡◌, ◌≤◌, refl, inl, In, All, filter}
use aipro.Queue.Arbitration.{
  Comment, state_comments, block_comments, earliest, settle_among, settle_after_create, World,
  posts, settles, deletes, Reachable, fresh, then_step,
}
use aipro.Queue.OneClaimant.{one_claimant, claim_kept}

abbrev comment : ℕ → Comment
comment id = record { id = id; user = "aipro"; has_block = true }

abbrev world : List Comment → ℕ → List ℕ → List ℕ → World
world comments next doomed claimants = record {
  comments = comments;
  next_id = next;
  doomed = doomed;
  claimants = claimants;
}

abbrev both : List Comment
both = comment 1 ∷ comment 2 ∷ []

posted : Reachable "aipro" (world both 3 [] [])
unfolding block_comments state_comments filter
posted =
    then_step (world (comment 1 ∷ []) 2 [] []) _
      (then_step (world [] 1 [] []) _ (fresh [] 1 refl) (posts (world [] 1 [] []) (comment 1) refl))
      (posts (world (comment 1 ∷ []) 2 [] []) (comment 2) refl)

-- The later one settles first and loses, the earlier one wins, and the duplicate is deleted.
raced : Reachable "aipro" (world (comment 1 ∷ []) 3 (2 ∷ 2 ∷ []) (1 ∷ []))
unfolding block_comments state_comments filter earliest settle_among settle_after_create
raced =
    then_step (world both 3 (2 ∷ 2 ∷ []) (1 ∷ [])) _
      (then_step (world both 3 (2 ∷ []) []) _
        (then_step (world both 3 [] []) _ posted (settles (world both 3 [] []) 2))
        (settles (world both 3 (2 ∷ []) []) 1))
      (deletes (world both 3 (2 ∷ 2 ∷ []) (1 ∷ [])) 2 (inl refl))

one_claimant_example : ◌≡◌ {A = ℕ} 1 1
one_claimant_example =
    one_claimant "aipro" (world (comment 1 ∷ []) 3 (2 ∷ 2 ∷ []) (1 ∷ [])) 1 1 raced (inl refl)
      (inl refl)

claim_kept_example :
    (x : Comment) × (x.id ≡ 1)
    × In x (block_comments "aipro" (comment 1 ∷ []))
    × All (λ c. x.id ≤ c.id) (block_comments "aipro" (comment 1 ∷ []))
claim_kept_example =
    claim_kept "aipro" (world (comment 1 ∷ []) 3 (2 ∷ 2 ∷ []) (1 ∷ [])) 1 raced (inl refl)
