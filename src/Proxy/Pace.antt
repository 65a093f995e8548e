-- ===== src/Proxy/Pace.antt =====
-- What `nrdpx_main_proc` of src/nrdpx_server.cpp does around a pass: the test after `select`, and the
-- sleep at the end.
use nuords_proxy.Prelude.{
  ℕ, suc, ◌+◌, ◌≤◌, ◌<◌, ltb, leb, arith, Bool, true, false, not, ◌&&◌, Bool-cases, inl, inr,
  if◌then◌else◌, Option, none, some, List, [], ◌∷◌, length,
}
use nuords_proxy.Inet.Hosts.{Errno, is_error_fatal}

-- The loop is left for `nrdpx_exit_proc` or for `nrdpx_fail_proc`, or a pass is made.
pub data AfterSelect : Type 0 where
  ends fails passes : AfterSelect

-- `failed` is whether `select` returns less than 0, and `error` the error then.
unfoldable pub after_select : Errno → Bool → Bool → ℕ → AfterSelect
after_select e terminated failed error =
    if terminated then ends else if failed && is_error_fatal e error false then fails else passes

-- The counter after a pass, and for how many milliseconds the pass slept, if it did.
unfoldable pub rest_after : Bool → ℕ → ℕ × Option ℕ
rest_after busy slp =
    let s = if ltb slp 25 then suc slp else slp in
    if not busy then (s, some s) else if leb 25 s then (0, some 0) else (s, none)

-- The sleeps of passes that were busy or not.
unfoldable pub rests : List Bool → ℕ → List (Option ℕ)
unfolding rest_after
rests [] slp = []
rests (busy ∷ more) slp = let (s, slept) = rest_after busy slp in slept ∷ rests more s

abbrev pub SomeRest : List (Option ℕ) → Type 0
SomeRest [] = ⊥
SomeRest (none ∷ more) = SomeRest more
SomeRest (some ms ∷ more) = ms ≤ 25

-- In any 25 passes that follow each other there is a sleep, and the first lasts at most 25
-- milliseconds.
pub rests-SomeRest :
    (busy : List Bool) (slp : ℕ)
    → slp ≤ 25
    → 25 ≤ slp + length busy
    → 0 < length busy
    → SomeRest (rests busy slp)
unfolding rests
rests-SomeRest [] slp low long more = absurd (omega arith)
rests-SomeRest (false ∷ busy) slp low long more = ground arith
rests-SomeRest (true ∷ busy) slp low long more =
    elim (Bool-cases (leb 25 (if ltb slp 25 then suc slp else slp))) [
      | inl last ↦ rw last (omega arith)
      | inr early ↦ rw early (
          rests-SomeRest busy (if ltb slp 25 then suc slp else slp) (ground arith) (ground arith)
            (ground arith))
    ]
