-- ===== src/Threads/Waiting.antt =====
-- How long `wait_for` waits.
use nuords_proxy.Prelude.{
  ℕ, zero, suc, ◌+◌, ◌-◌, ◌*◌, ◌%◌, ◌^◌, ◌≤◌, ◌<◌, ◌==◌, ◌≡◌, ◌≢◌, ◌⊎◌, refl, subst, arith, Bool,
  true, false, not, ◌&&◌, ltb, Bool-cases, inl, inr, Option, none, some,
}
use nuords_proxy.Threads.Lives.{less_25, wait_loop}

-- After some sleeps of a wait: as many as there may be, or the thread has gone.
abbrev pub Ends : ℕ → ℕ → (ℕ → Bool) → Option ℕ → Type 0
Ends i k alive found =
    (n : ℕ) × (found ≡ some n)
    × (n ≤ k)
    × ((n ≡ k) ⊎ (alive n ≡ false))
    × ((j : ℕ) → i ≤ j → j < n → alive j ≡ true)

and_false : (b : Bool) → (b && false) ≡ false
and_false true = refl
and_false false = refl

wait_loop-from :
    (alive : ℕ → Bool) (fuel i k : ℕ)
    → k < fuel
    → 25 * k < 2 ^ 64
    → Ends i (i + k) alive (wait_loop fuel i alive (25 * k))
unfolding wait_loop
wait_loop-from alive zero i k enough small = absurd (omega arith)
wait_loop-from alive (suc fuel) i zero enough small =
    rw (and_false (alive i))
      (i, refl, omega arith, inl (omega arith), λ j from below. absurd (omega arith))
wait_loop-from alive (suc fuel) i (suc k) enough small = elim (Bool-cases (alive i)) [
  | inr gone ↦ rw gone (i, refl, omega arith, inr gone, λ j from below. absurd (omega arith))
  | inl there ↦
      let (n, found, few, why, all) =
        wait_loop-from alive fuel (suc i) k (omega arith) (omega arith) in
      let left : less_25 (25 * suc k) ≡ 25 * k = omega arith in
      let more : not (25 * suc k == 0) ≡ true = ground arith in
      let still : (j : ℕ) → i ≤ j → j < n → alive j ≡ true = λ j from below.
        elim (Bool-cases (j == i)) [
          | inl first ↦ let eq : j ≡ i = ground arith in rw eq there
          | inr later ↦ all j (ground arith) below
        ] in
      rw (there, more, left)
        (
          n,
          found,
          omega (arith, few),
          elim why [ inl e ↦ inl (omega (arith, e)) | inr gone ↦ inr gone ],
          still,
        )
]

-- A wait for a time that is a multiple of 25 ends: after as many sleeps as there are 25 in it, or
-- before, at the first test that finds the thread gone; at every test before, it was there.
pub wait_loop-Ends :
    (alive : ℕ → Bool) (k : ℕ)
    → 25 * k < 2 ^ 64
    → Ends 0 k alive (wait_loop (suc k) 0 alive (25 * k))
wait_loop-Ends alive k small =
    let from = wait_loop-from alive (suc k) 0 k (omega arith) small in
    let same : 0 + k ≡ k = omega arith in
    subst (λ n. Ends 0 n alive (wait_loop (suc k) 0 alive (25 * k))) same from

-- A wait for a time that is no multiple of 25 goes past 0, and on for as good as ever: there is no
-- end for any number of sleeps whose time is below 2^64.
overrun : (fuel i w : ℕ) → 25 * fuel < w → w < 2 ^ 64 → wait_loop fuel i (λ _. true) w ≡ none
unfolding wait_loop
overrun zero i w long small = refl
overrun (suc fuel) i w long small =
    let more : not (w == 0) ≡ true = ground arith in
    let left : less_25 w ≡ w - 25 = omega arith in
    rw (more, left) (overrun fuel (suc i) (w - 25) (omega arith) (omega arith))

pub wait_loop-overruns :
    (fuel i w : ℕ)
    → 25 * fuel + 25 < 2 ^ 64
    → w < 2 ^ 64
    → w % 25 ≢ 0
    → wait_loop fuel i (λ _. true) w ≡ none
unfolding wait_loop
wait_loop-overruns zero i w bound small odd = refl
wait_loop-overruns (suc fuel) i w bound small odd = elim (Bool-cases (ltb w 25)) [
  | inl last ↦
      let more : not (w == 0) ≡ true = ground arith in
      rw more (overrun fuel (suc i) (less_25 w) (ground arith) (omega arith))
  | inr early ↦
      let more : not (w == 0) ≡ true = ground arith in
      let left : less_25 w ≡ w - 25 = ground arith in
      rw (more, left)
        (wait_loop-overruns fuel (suc i) (w - 25) (omega arith) (omega arith)
          (λ e. odd (ground (arith, e))))
]
