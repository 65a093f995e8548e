-- ===== src/Proxy/Loop/Places.antt =====
-- The places of the list of channels: what a write, an addition or a removal does to them.
use nuords_proxy.Prelude.{
  ℕ, zero, suc, ◌<◌, ◌≡◌, refl, subst, Bool-cases, inl, inr, ◌==◌, some, List, [], ◌∷◌, ◌++◌,
  some-injective, All, arith,
}
use nuords_proxy.Proxy.{Channel}
use nuords_proxy.Proxy.Channels.{erase_channel}
use nuords_proxy.Proxy.Ownership.{slots_of}
use nuords_proxy.Proxy.Loop.{nth, replace}

pub slots_of-replace :
    (a i : ℕ) (c chn : Channel) (chns : List Channel)
    → nth i chns ≡ some c
    → chn.route ≡ c.route
    → slots_of a (replace i chn chns) ≡ slots_of a chns
unfolding nth replace
slots_of-replace a i c chn [] e same = refl
slots_of-replace a zero c chn (d ∷ chns) e same = ground arith
slots_of-replace a (suc i) c chn (d ∷ chns) e same =
    omega (arith, slots_of-replace a i c chn chns e same)

pub slots_of-nth :
    (i : ℕ) (c : Channel) (chns : List Channel) → nth i chns ≡ some c → 0 < slots_of c.route chns
unfolding nth
slots_of-nth i c [] e = cc
slots_of-nth zero c (d ∷ chns) e = ground arith
slots_of-nth (suc i) c (d ∷ chns) e = omega (arith, slots_of-nth i c chns e)

pub nth-append :
    (i : ℕ) (c : Channel) (chns new : List Channel)
    → nth i chns ≡ some c
    → nth i (chns ++ new) ≡ some c
unfolding nth
nth-append i c [] new e = cc
nth-append zero c (d ∷ chns) new e = e
nth-append (suc i) c (d ∷ chns) new e = nth-append i c chns new e

module _ (P : Channel → Type 0) where
  pub All-nth : (i : ℕ) (c : Channel) (chns : List Channel) → All P chns → nth i chns ≡ some c → P c
  unfolding nth
  All-nth i c [] h e = cc
  All-nth zero c (d ∷ chns) (h, t) e = subst P (some-injective d c e) h
  All-nth (suc i) c (d ∷ chns) (h, t) e = All-nth i c chns t e

  pub All-replace :
      (i : ℕ) (chn : Channel) (chns : List Channel)
      → All P chns
      → P chn
      → All P (replace i chn chns)
  unfolding replace
  All-replace i chn [] h e = tt
  All-replace zero chn (d ∷ chns) (h, t) e = (e, t)
  All-replace (suc i) chn (d ∷ chns) (h, t) e = (h, All-replace i chn chns t e)

  pub All-append : (chns : List Channel) (c : Channel) → All P chns → P c → All P (chns ++ c ∷ [])
  All-append [] c h e = (e, tt)
  All-append (d ∷ chns) c (h, t) e = (h, All-append chns c t e)

  pub All-erase : (self : ℕ) (chns : List Channel) → All P chns → All P (erase_channel self chns)
  unfolding erase_channel
  All-erase self [] h = tt
  All-erase self (d ∷ chns) (h, t) = elim (Bool-cases (d.self == self)) [
    | inl found ↦ rw found t
    | inr other ↦ rw other (h, All-erase self chns t)
  ]
