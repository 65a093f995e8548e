-- ===== src/Proxy/Select/Best.antt =====
-- The two rounds of `nrdpx_select_server` and their candidates.
use nuords_proxy.Prelude.{
  ℕ, ◌<◌, ◌≡◌, refl, subst, ◌≢◌, ◌⊎◌, inl, inr, Bool, true, false, Bool-cases, same_flag,
  if◌then◌else◌, is_some, Option, none, some, List, [], ◌∷◌, In, All, All-In, arith,
}
use nuords_proxy.Proxy.{Server, Balancer}
use nuords_proxy.Proxy.Servers.{server_user_limit}
use nuords_proxy.Proxy.Select.{Double, over_limits, score, consider, select_round, select_server}

same_flag-eq : (a b : Bool) → same_flag a b ≡ true → a ≡ b
same_flag-eq true true e = refl
same_flag-eq false false e = refl
same_flag-eq true false e = cc
same_flag-eq false true e = cc

same_flag-ne : (a b : Bool) → same_flag a b ≡ false → a ≢ b
same_flag-ne true true e h = cc
same_flag-ne false false e h = cc
same_flag-ne true false e h = cc
same_flag-ne false true e h = cc

-- A positive weight, a free slot and a free user place.
pub record IsFit (svr : Server) : Type 0 where
  pub weight : 0 < svr.max_weight
  pub slots : svr.num_slots < svr.max_slots
  pub users : svr.info.ccnt < server_user_limit svr

over_limits-false : (svr : Server) → over_limits svr ≡ false → IsFit svr
unfolding over_limits
over_limits-false svr e = ground arith

over_limits-true : (svr : Server) → over_limits svr ≡ true → ¬ IsFit svr
unfolding over_limits
over_limits-true svr e fit = ground arith

module _ (d : Double) (at : ℕ → Server) (bal : Balancer) where
  open d use {Carrier, gtb, number}

  -- Server `i` takes part in the round for `redt`.
  pub record IsCandidate (redt : Bool) (i : ℕ) : Type 0 where
    pub flag : (at i).redundant ≡ redt
    pub fit : IsFit (at i)

  abbrev score_of : ℕ → Carrier
  score_of i = score d bal (at i)

  gtb_irrefl : (a : Carrier) → gtb a a ≡ false
  gtb_irrefl a = elim (Bool-cases (gtb a a)) [ inl e ↦ d.gtb_asymm a a e | inr e ↦ e ]

  -- What one turn of the loop does.
  Taken : Bool → ℕ → Option ℕ → Carrier → Type 0
  Taken redt i ret sc =
      (consider d at bal redt i (ret, sc) ≡ (some i, score_of i))
      × IsCandidate redt i
      × ((ret ≡ none) ⊎ (gtb (score_of i) sc ≡ true))

  Passed : Bool → ℕ → Option ℕ → Carrier → Type 0
  Passed redt i ret sc =
      (consider d at bal redt i (ret, sc) ≡ (ret, sc))
      × ((¬ IsCandidate redt i) ⊎ ((ret ≢ none) × (gtb (score_of i) sc ≡ false)))

  consider_fit :
      (redt : Bool) (i : ℕ) (ret : Option ℕ) (sc : Carrier)
      → same_flag (at i).redundant redt ≡ true
      → over_limits (at i) ≡ false
      → Taken redt i ret sc ⊎ Passed redt i ret sc
  unfolding consider Taken Passed
  consider_fit redt i none sc same within = inl (
    rw (same, within),
    record { flag = same_flag-eq _ _ same; fit = over_limits-false (at i) within },
    inl refl,
  )
  consider_fit redt i (some k) sc same within = elim (Bool-cases (gtb (score_of i) sc)) [
    | inl more ↦ inl (
      rw (same, within, more),
      record { flag = same_flag-eq _ _ same; fit = over_limits-false (at i) within },
      inr more,
    )
    | inr less ↦ inr (rw (same, within, less), inr ((λ e. cc), less))
  ]

  consider_cases :
      (redt : Bool) (i : ℕ) (ret : Option ℕ) (sc : Carrier)
      → Taken redt i ret sc ⊎ Passed redt i ret sc
  unfolding consider Taken Passed
  consider_cases redt i ret sc = elim (Bool-cases (same_flag (at i).redundant redt)) [
    | inr other ↦ inr (rw other, inl (λ c. same_flag-ne _ _ other c.flag))
    | inl same ↦ elim (Bool-cases (over_limits (at i))) [
      | inl over ↦ inr (rw (same, over), inl (λ c. over_limits-true (at i) over c.fit))
      | inr within ↦ consider_fit redt i ret sc same within
    ]
  ]

  -- From the pick so far to the pick after the servers `xs`.
  record Post (redt : Bool) (xs : List ℕ) (ret : Option ℕ) (sc : Carrier) (ret' : Option ℕ)
      (sc' : Carrier) : Type 0 where
    picked :
        ((ret' ≡ ret) × (sc' ≡ sc))
        ⊎ ((k : ℕ) × (ret' ≡ some k) × In k xs × IsCandidate redt k × (sc' ≡ score_of k))
    grows : ret ≢ none → (ret' ≢ none) × (gtb sc sc' ≡ false)
    beats : All (λ j. IsCandidate redt j → (ret' ≢ none) × (gtb (score_of j) sc' ≡ false)) xs

  abbrev AllNumbers : List ℕ → Type 0
  AllNumbers = All (λ j. number (score_of j) ≡ true)

  Post-Taken :
      (redt : Bool) (x : ℕ) (xs : List ℕ) (ret : Option ℕ) (sc : Carrier) (ret' : Option ℕ)
      (sc' : Carrier)
      → number (score_of x) ≡ true
      → Taken redt x ret sc
      → Post redt xs (some x) (score_of x) ret' sc'
      → Post redt (x ∷ xs) ret sc ret' sc'
  unfolding Taken
  Post-Taken redt x xs ret sc ret' sc' num (_, cand, why) post =
      let next = post.grows (λ e. cc) in
      record {
        picked = elim post.picked [
          | inl (e, f) ↦ inr (x, e, inl refl, cand, f)
          | inr (k, e, m, c, f) ↦ inr (k, e, inr m, c, f)
        ];
        grows = λ some_ret. elim why [
          | inl e ↦ absurd (some_ret e)
          | inr more ↦ (
            next.0,
            d.gtb_false_trans sc (score_of x) sc' num (d.gtb_asymm (score_of x) sc more) next.1,
          )
        ];
        beats = (λ _. next, post.beats);
      }

  Post-Passed :
      (redt : Bool) (x : ℕ) (xs : List ℕ) (ret : Option ℕ) (sc : Carrier) (ret' : Option ℕ)
      (sc' : Carrier)
      → (ret ≢ none → number sc ≡ true)
      → Passed redt x ret sc
      → Post redt xs ret sc ret' sc'
      → Post redt (x ∷ xs) ret sc ret' sc'
  unfolding Passed
  Post-Passed redt x xs ret sc ret' sc' num (_, why) post = record {
    picked = elim post.picked [
      | inl same ↦ inl same
      | inr (k, e, m, c, f) ↦ inr (k, e, inr m, c, f)
    ];
    grows = post.grows;
    beats = (
      λ cand. elim why [
        | inl bad ↦ absurd (bad cand)
        | inr (some_ret, less) ↦
            let next = post.grows some_ret in
            (next.0, d.gtb_false_trans (score_of x) sc sc' (num some_ret) less next.1)
      ],
      post.beats,
    );
  }

  select_round-Post :
      (redt : Bool) (xs : List ℕ) (ret : Option ℕ) (sc : Carrier)
      → AllNumbers xs
      → (ret ≢ none → number sc ≡ true)
      → Post redt xs ret sc
          (select_round d at bal redt xs (ret, sc)).0
          (select_round d at bal redt xs (ret, sc)).1
  unfolding select_round Taken Passed
  select_round-Post redt [] ret sc nums num = record {
    picked = inl (refl, refl);
    grows = λ some_ret. (some_ret, gtb_irrefl sc);
    beats = tt;
  }
  select_round-Post redt (x ∷ xs) ret sc (nx, nums) num = elim (consider_cases redt x ret sc) [
    | inl taken ↦
        rw (taken.0, select_round)
          (Post-Taken redt x xs ret sc _ _ nx taken
            (select_round-Post redt xs (some x) (score_of x) nums (λ _. nx)))
    | inr passed ↦
        rw (passed.0, select_round)
          (Post-Passed redt x xs ret sc _ _ num passed (select_round-Post redt xs ret sc nums num))
  ]

  pub round : Bool → List ℕ → Option ℕ
  round redt xs = (select_round d at bal redt xs (none, d.of_ℕ 0)).0

  round-Post :
      (redt : Bool) (xs : List ℕ)
      → AllNumbers xs
      → Post redt xs none
          (d.of_ℕ 0)
          (round redt xs)
          (select_round d at bal redt xs (none, d.of_ℕ 0)).1
  unfolding round
  round-Post redt xs nums = select_round-Post redt xs none (d.of_ℕ 0) nums (λ e. absurd (e refl))

  -- A round picks nothing if there is no candidate, and else the best one.
  pub round-none :
      (redt : Bool) (xs : List ℕ)
      → AllNumbers xs
      → round redt xs ≡ none
      → (j : ℕ) → In j xs
      → ¬ IsCandidate redt j
  round-none redt xs nums e j m c =
      (All-In (λ j. IsCandidate redt j → _) xs j (round-Post redt xs nums).beats m c).0 e

  pub round-some :
      (redt : Bool) (xs : List ℕ) (k : ℕ)
      → AllNumbers xs
      → round redt xs ≡ some k
      → In k xs
        × IsCandidate redt k
        × ((j : ℕ) → In j xs → IsCandidate redt j → gtb (score_of j) (score_of k) ≡ false)
  round-some redt xs k nums e =
      let post = round-Post redt xs nums in
      elim post.picked [
        | inl (n, _) ↦ absurd (cc)
        | inr (k', e', m, c, f) ↦
            let same : k' ≡ k = cc in
            (
              subst (λ i. In i xs) same m,
              subst (IsCandidate redt) same c,
              λ j mj cj.
                  subst (λ i. gtb (score_of j) (score_of i) ≡ false) same
                    (subst (λ t. gtb (score_of j) t ≡ false) f
                      (All-In (λ j. IsCandidate redt j → _) xs j post.beats mj cj).1),
            )
      ]

  -- The choice depends on the two rounds only.
  pub select_server-rounds :
      (xs : List ℕ)
      → select_server d at bal xs
        ≡ (if is_some (round false xs) then round false xs else round true xs)
  unfolding select_server round
  select_server-rounds [] = refl
  select_server-rounds (x ∷ xs) = refl
