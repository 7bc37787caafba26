-- ===== src/Queue/OneClaimant.antt =====
-- At most one foreman gets the claim, in whichever order the calls come.
use aipro.Prelude.{
  ℕ, suc, ◌≤◌, ◌<◌, String, Bool, true, List, [], ◌∷◌, ◌++◌, filter, filter-append, In, In-append,
  In-append_left, In-filter, In-filter_intro, All, not, ◌≡◌, ◌⊎◌, inl, inr, refl, sym, ap, ◌∙◌,
  subst, arith, ◌==◌, nat_eq, string_eq,
}
use aipro.Queue.Settling.{
  IsEarliest, settle_among-doomed, settle_among-won, IsEarliest-of, All-of_In,
}
use aipro.Queue.Arbitration.{
  Comment, state_comments, block_comments, settle_among, settle_after_create, World, won, Step,
  posts, settles, deletes, Reachable, fresh, then_step,
}

module _ (actor : String) where
  -- The first state comment stays: it is the only one that can hold the claim, and nobody deletes it.
  record Holds (w : World) (x : Comment) : Type 0 where
    pub present : In x (block_comments actor w.comments)
    pub least : (c : Comment) → In c (block_comments actor w.comments) → x.id ≤ c.id
    pub old : x.id < w.next_id
    pub spared : (d : ℕ) → In d w.doomed → x.id < d
    pub alone : (k : ℕ) → In k w.claimants → k ≡ x.id

  record Idle (w : World) : Type 0 where
    pub unposted : block_comments actor w.comments ≡ []
    pub unclaimed : w.claimants ≡ []
    pub undoomed : w.doomed ≡ []

  Invariant : World → Type 0
  Invariant w = Idle w ⊎ ((x : Comment) × Holds w x)

  block_comments-append :
      (cs ds : List Comment)
      → block_comments actor (cs ++ ds) ≡ block_comments actor cs ++ block_comments actor ds
  unfolding block_comments state_comments
  block_comments-append cs ds =
      ap (filter (λ c. c.has_block)) (filter-append (λ c. c.user == actor) cs ds)
      ∙ filter-append (λ c. c.has_block) _ _

  block_comments-one :
      (c : Comment)
      → (block_comments actor (c ∷ []) ≡ []) ⊎ (block_comments actor (c ∷ []) ≡ c ∷ [])
  unfolding block_comments state_comments filter
  block_comments-one c = ground arith

  block_comments-filter :
      (p : Comment → Bool) (x : Comment) (cs : List Comment)
      → In x (block_comments actor (filter p cs))
      → In x (block_comments actor cs)
  unfolding block_comments state_comments
  block_comments-filter p x cs m =
      let (m1, b) = In-filter (λ c. c.has_block) x _ m in
      let (m2, u) = In-filter (λ c. c.user == actor) x _ m1 in
      In-filter_intro _ x _ (In-filter_intro _ x cs (In-filter p x cs m2).0 u) b

  block_comments-filter_intro :
      (p : Comment → Bool) (x : Comment) (cs : List Comment)
      → In x (block_comments actor cs)
      → p x ≡ true
      → In x (block_comments actor (filter p cs))
  unfolding block_comments state_comments
  block_comments-filter_intro p x cs m q =
      let (m1, b) = In-filter (λ c. c.has_block) x _ m in
      let (m2, u) = In-filter (λ c. c.user == actor) x _ m1 in
      In-filter_intro _ x _ (In-filter_intro _ x _ (In-filter_intro p x cs m2 q) u) b

  posts-Invariant :
      (w : World) (c : Comment)
      → c.id ≡ w.next_id
      → Invariant w
      → Invariant (record w { comments = w.comments ++ c ∷ []; next_id = suc w.next_id })
  unfolding Invariant
  posts-Invariant w c e (inl i) = elim (block_comments-one c) [
    | inl q ↦ inl (record {
      unposted = block_comments-append w.comments (c ∷ []) ∙ rw (i.unposted, q) refl;
      unclaimed = i.unclaimed;
      undoomed = i.undoomed;
    })
    | inr q ↦
        let now : block_comments actor (w.comments ++ c ∷ []) ≡ c ∷ [] =
          block_comments-append w.comments (c ∷ []) ∙ rw (i.unposted, q) refl in
        inr (
          c,
          record {
            present = rw now (inl refl);
            least = λ d m. elim (subst (In d) now m) [
              | inl s ↦ subst (λ y. c.id ≤ y.id) s (omega arith)
              | inr n ↦ absurd n
            ];
            old = ground arith;
            spared = λ d m. absurd (subst (In d) i.undoomed m);
            alone = λ k m. absurd (subst (In k) i.unclaimed m);
          },
        )
  ]
  posts-Invariant w c e (inr (x, h)) = inr (
    x,
    record {
      present = rw (block_comments-append w.comments (c ∷ [])) (In-append_left x _ _ h.present);
      least = λ d m.
          elim (In-append d _ _ (subst (In d) (block_comments-append w.comments (c ∷ [])) m)) [
            | inl n ↦ h.least d n
            | inr n ↦ elim (block_comments-one c) [
              | inl q ↦ absurd (subst (In d) q n)
              | inr q ↦ elim (subst (In d) q n) [
                | inl s ↦ subst (λ y. x.id ≤ y.id) s (let o = h.old in ground arith)
                | inr z ↦ absurd z
              ]
            ]
          ];
      old = let o = h.old in omega arith;
      spared = h.spared;
      alone = h.alone;
    },
  )

  deletes-Invariant :
      (w : World) (d : ℕ)
      → In d w.doomed
      → Invariant w
      → Invariant (record w { comments = filter (λ c. not (c.id == d)) w.comments })
  unfolding Invariant
  deletes-Invariant w d m (inl i) = absurd (subst (In d) i.undoomed m)
  deletes-Invariant w d m (inr (x, h)) = inr (
    x,
    record {
      present =
          block_comments-filter_intro (λ c. not (c.id == d)) x w.comments h.present
            (let o = h.spared d m in ground arith);
      least = λ c n. h.least c (block_comments-filter _ c w.comments n);
      old = h.old;
      spared = h.spared;
      alone = h.alone;
    },
  )

  settles-Invariant :
      (w : World) (k : ℕ)
      → Invariant w
      → Invariant (record w {
        doomed = (settle_after_create actor w.comments k).0 ++ w.doomed;
        claimants = won k (settle_after_create actor w.comments k).1 w.claimants;
      })
  unfolding Invariant settle_after_create settle_among
  settles-Invariant w k (inl i) = inl (record {
    unposted = i.unposted;
    unclaimed =
        subst (λ bs. won k (settle_among bs k).1 w.claimants ≡ []) (sym i.unposted) i.unclaimed;
    undoomed = subst (λ bs. (settle_among bs k).0 ++ w.doomed ≡ []) (sym i.unposted) i.undoomed;
  })
  settles-Invariant w k (inr (x, h)) = inr (
    x,
    record {
      present = h.present;
      least = h.least;
      old = h.old;
      spared = λ d m.
          elim (In-append d (settle_among (block_comments actor w.comments) k).0 w.doomed m) [
            | inl n ↦ settle_among-doomed x _ k d first n
            | inr n ↦ h.spared d n
          ];
      alone = λ j m. elim (settle_among-won x _ k j w.claimants first m) [
        | inl e ↦ e
        | inr n ↦ h.alone j n
      ];
    },
  )
    where
      first : IsEarliest x (block_comments actor w.comments)
      first = IsEarliest-of x _ h.present h.least

  Step-Invariant : (w w' : World) → Step actor w w' → Invariant w → Invariant w'
  Step-Invariant w w' (posts _ c e) v = posts-Invariant w c e v
  Step-Invariant w w' (settles _ k) v = settles-Invariant w k v
  Step-Invariant w w' (deletes _ d m) v = deletes-Invariant w d m v

  Reachable-Invariant : (w : World) → Reachable actor w → Invariant w
  unfolding Invariant
  Reachable-Invariant w (fresh cs n e) =
      inl (record { unposted = e; unclaimed = refl; undoomed = refl })
  Reachable-Invariant w (then_step v _ r s) = Step-Invariant v w s (Reachable-Invariant v r)

  -- Of the foremen that claim an issue without a state comment by posting their first one, at most
  -- one gets the claim, however their calls interleave: two comments whose posters hold it are one.
  pub one_claimant :
      (w : World) (a b : ℕ) → Reachable actor w → In a w.claimants → In b w.claimants → a ≡ b
  unfolding Invariant
  one_claimant w a b r m n = elim (Reachable-Invariant w r) [
    | inl i ↦ absurd (subst (In a) i.unclaimed m)
    | inr (x, h) ↦ h.alone a m ∙ sym (h.alone b n)
  ]

  -- On an issue that began without a state comment, however the posting foremen's calls interleave,
  -- the state comment of the foreman that got the claim is still on
  -- the issue, and no other state comment is older.
  pub claim_kept :
      (w : World) (a : ℕ)
      → Reachable actor w
      → In a w.claimants
      → (x : Comment) × (x.id ≡ a)
        × In x (block_comments actor w.comments)
        × All (λ c. x.id ≤ c.id) (block_comments actor w.comments)
  unfolding Invariant
  claim_kept w a r m = elim (Reachable-Invariant w r) [
    | inl i ↦ absurd (subst (In a) i.unclaimed m)
    | inr (x, h) ↦ (x, sym (h.alone a m), h.present, All-of_In _ _ h.least)
  ]
