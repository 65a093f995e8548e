-- ===== src/Proxy/Select.antt =====
-- `nrdpx_select_server` of src/nrdpx_server.cpp: the weighted choice of a target server.
pub mod Best
pub mod Choice
use nuords_proxy.Prelude.{
  ℕ, ◌≡◌, Bool, true, false, ◌||◌, not, leb, same_flag, if◌then◌else◌, Option, none, some, is_some,
  List, [], ◌∷◌,
}
use nuords_proxy.Proxy.{Server, Balancer, Method, by_busyness, by_requests}
use nuords_proxy.Proxy.Servers.{
  server_slot_count, server_slot_limit, server_user_count, server_user_limit, server_max_weight,
  has_free,
}

-- The type `double`: its operations are the processor's. `gtb` is `>`, and `number` holds of every
-- value but NaN. The laws are those of IEEE 754 comparison.
pub record Double : Type 1 where
  pub Carrier : Type 0
  pub of_ℕ : ℕ → Carrier
  pub add : Carrier → Carrier → Carrier
  pub sub : Carrier → Carrier → Carrier
  pub mul : Carrier → Carrier → Carrier
  pub div : Carrier → Carrier → Carrier
  pub gtb : Carrier → Carrier → Bool
  pub number : Carrier → Bool
  pub gtb_asymm : (a b : Carrier) → gtb a b ≡ true → gtb b a ≡ false
  pub gtb_false_trans :
      (a b c : Carrier) → number b ≡ true → gtb a b ≡ false → gtb b c ≡ false → gtb a c ≡ false

-- The limits, checked again: weight, slots and users. The counts are `int`s that a `double` holds
-- exactly.
unfoldable pub over_limits : Server → Bool
over_limits svr =
    leb (server_max_weight svr) 0
    || leb (server_slot_limit svr) (server_slot_count svr)
    || leb (server_user_limit svr) (server_user_count svr)

module _ (d : Double) where
  open d use {Carrier, of_ℕ, add, sub, mul, div, gtb}

  mean : Carrier → Carrier → Carrier
  mean a b = div (add a b) (of_ℕ 2)

  by_method : Method → Server → Carrier
  by_method by_requests svr = div (of_ℕ 100) (add (of_ℕ (server_slot_count svr)) (of_ℕ 1))
  by_method by_busyness svr =
      div (mul (of_ℕ 100) (sub (of_ℕ (server_slot_limit svr)) (of_ℕ (server_slot_count svr))))
        (of_ℕ (server_slot_limit svr))

  -- The weight, adjusted by each metric that the balancer names.
  unfoldable pub score : Balancer → Server → Carrier
  unfolding mean by_method
  score bal svr =
      let weight = of_ℕ (server_max_weight svr) in
      let with_mem =
        if bal.metrics.mem
        then (if has_free svr.info.mem then mean (of_ℕ svr.info.mem.free) weight else weight)
        else weight in
      let with_cpu =
        if bal.metrics.cpu
        then (if has_free svr.info.cpu then mean (of_ℕ svr.info.cpu.free) with_mem else with_mem)
        else with_mem in
      if bal.metrics.cap then mean with_cpu (by_method bal.method svr) else with_cpu

  -- One server of the inner loop, on the best one so far and its score.
  unfoldable pub consider :
      (ℕ → Server) → Balancer → Bool → ℕ → Option ℕ × Carrier → Option ℕ × Carrier
  consider at bal redt i (ret, scmax) =
      let svr = at i in
      if not (same_flag svr.redundant redt)
      then (ret, scmax)
      else if over_limits svr
      then (ret, scmax)
      else if not (is_some ret) || gtb (score bal svr) scmax
      then (some i, score bal svr)
      else (ret, scmax)

  unfoldable pub select_round :
      (ℕ → Server) → Balancer → Bool → List ℕ → Option ℕ × Carrier → Option ℕ × Carrier
  select_round at bal redt [] best = best
  select_round at bal redt (i ∷ svrs) best =
      select_round at bal redt svrs (consider at bal redt i best)

  -- The redundant servers have a round of their own if no other server is fit.
  unfoldable pub select_server : (ℕ → Server) → Balancer → List ℕ → Option ℕ
  unfolding select_round
  select_server at bal [] = none
  select_server at bal (i ∷ svrs) =
      let first = (select_round at bal false (i ∷ svrs) (none, of_ℕ 0)).0 in
      if is_some first then first else (select_round at bal true (i ∷ svrs) (none, of_ℕ 0)).0
