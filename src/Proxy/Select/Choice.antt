-- ===== src/Proxy/Select/Choice.antt =====
-- The server that `nrdpx_select_server` picks, measured against the fit ones.
use nuords_proxy.Prelude.{
  ℕ, ◌≡◌, ◌∙◌, inl, inr, true, false, Bool-cases, Option-cases, Option, none, some, List, In, All,
}
use nuords_proxy.Proxy.{Server, Balancer}
use nuords_proxy.Proxy.Select.{Double, score, select_server}
use nuords_proxy.Proxy.Select.Best.{IsFit, round, round-none, round-some, select_server-rounds}

module _ (d : Double) (at : ℕ → Server) (bal : Balancer) where
  open d use {Carrier, gtb, number}

  -- Server `k` is the choice among the servers `xs`.
  pub record IsChoice (xs : List ℕ) (k : ℕ) : Type 0 where
    pub listed : In k xs
    pub fit : IsFit (at k)
    pub best :
        (j : ℕ)
        → In j xs
        → IsFit (at j)
        → (at j).redundant ≡ (at k).redundant
        → gtb (score d bal (at j)) (score d bal (at k)) ≡ false
    pub last_resort :
        (j : ℕ) → In j xs → IsFit (at j) → (at k).redundant ≡ true → (at j).redundant ≡ true

  IsChoice-plain :
      (xs : List ℕ) (k : ℕ)
      → All (λ j. number (score d bal (at j)) ≡ true) xs
      → round d at bal false xs ≡ some k
      → IsChoice xs k
  IsChoice-plain xs k nums e =
      let (m, c, best) = round-some d at bal false xs k nums e in
      record {
        listed = m;
        fit = c.fit;
        best = λ j mj fj same. best j mj (record { flag = same ∙ c.flag; fit = fj });
        last_resort = λ j mj fj red. cc c.flag;
      }

  IsChoice-redundant :
      (xs : List ℕ) (k : ℕ)
      → All (λ j. number (score d bal (at j)) ≡ true) xs
      → round d at bal false xs ≡ none
      → round d at bal true xs ≡ some k
      → IsChoice xs k
  IsChoice-redundant xs k nums e0 e =
      let (m, c, best) = round-some d at bal true xs k nums e in
      record {
        listed = m;
        fit = c.fit;
        best = λ j mj fj same. best j mj (record { flag = same ∙ c.flag; fit = fj });
        last_resort = λ j mj fj red. elim (Bool-cases (at j).redundant) [
          | inl r ↦ r
          | inr r ↦
              absurd (round-none d at bal false xs nums e0 j mj (record { flag = r; fit = fj }))
        ];
      }

  none_fit :
      (xs : List ℕ)
      → All (λ j. number (score d bal (at j)) ≡ true) xs
      → round d at bal false xs ≡ none
      → round d at bal true xs ≡ none
      → (j : ℕ) → In j xs
      → ¬ IsFit (at j)
  none_fit xs nums e0 e1 j mj fj = elim (Bool-cases (at j).redundant) [
    | inl r ↦ round-none d at bal true xs nums e1 j mj (record { flag = r; fit = fj })
    | inr r ↦ round-none d at bal false xs nums e0 j mj (record { flag = r; fit = fj })
  ]

  -- A choice is made if any listed server is fit.
  abbrev pub Chooses : List ℕ → Option ℕ → Type 0
  Chooses xs none = (j : ℕ) → In j xs → ¬ IsFit (at j)
  Chooses xs (some k) = IsChoice xs k

  -- Where no score is NaN, `nrdpx_select_server` returns a server that is listed, has a positive
  -- weight, a free slot and a free user place, no listed server that is fit in the same way and has
  -- the same redundancy flag scores more, and it is redundant only if every fit one is; or it
  -- returns NULL, and no listed server is fit.
  pub select_server-Chooses :
      (xs : List ℕ)
      → All (λ j. number (score d bal (at j)) ≡ true) xs
      → Chooses xs (select_server d at bal xs)
  select_server-Chooses xs nums = elim (Option-cases (round d at bal false xs)) [
    | inr (k, e0) ↦ rw (select_server-rounds d at bal xs, e0) (IsChoice-plain xs k nums e0)
    | inl e0 ↦ elim (Option-cases (round d at bal true xs)) [
      | inr (k, e1) ↦
          rw (select_server-rounds d at bal xs, e0, e1) (IsChoice-redundant xs k nums e0 e1)
      | inl e1 ↦ rw (select_server-rounds d at bal xs, e0, e1) (none_fit xs nums e0 e1)
    ]
  ]
