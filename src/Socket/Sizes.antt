-- ===== src/Socket/Sizes.antt =====
-- Bounds of the sizes that are chosen.
use native.Mathlib.Nat.{div-mul-le_self}
use nuords_proxy.Prelude.{
  Option, none, some, List, [], ◌∷◌, ◌++◌, ◌==◌, All, ℕ, ◌*◌, ◌/◌, ◌≤◌, min, ◌≡◌, refl, ◌⊎◌, inl,
  inr, true, Bool-cases, ◌||◌, ltb, arith,
}
use nuords_proxy.Socket.{
  standard_mss, standard_bss, calc_buffer_size, Options, Setting, send_size, recv_size, get_buffer,
  align_one, align_both, socket_adjust_buffers,
}

min_cases : (a b : ℕ) → (min a b ≡ a) ⊎ (min a b ≡ b)
min_cases a b = elim (Bool-cases (ltb a b)) [
  | inl less ↦ inl (ground arith)
  | inr other ↦ inr (ground arith)
]

-- A buffer is never made larger, and never smaller than six segments that it has held before; its
-- new size is a whole number of segments, unless the buffer is left as it is.
pub calc_buffer_size-bounds :
    (mss bss limit : ℕ)
    → (min bss (mss * 6) ≤ calc_buffer_size mss bss limit)
      × (calc_buffer_size mss bss limit ≤ bss)
      × ((calc_buffer_size mss bss limit ≡ bss)
          ⊎ ((k : ℕ) × (calc_buffer_size mss bss limit ≡ k * mss)))
unfolding calc_buffer_size
calc_buffer_size-bounds mss bss limit =
    elim (Bool-cases
      (ltb mss (standard_mss / 3) || ltb bss (standard_bss / 3) || ltb (bss / mss) 4)) [
        | inl odd ↦ rw odd (omega arith, omega arith, inl refl)
        | inr usual ↦
            let ret = min bss limit / mss * mss in
            elim (Bool-cases (ltb ret (mss * 6))) [
              | inl small ↦
                  rw (usual, small)
                    (
                      omega arith,
                      omega arith,
                      elim (min_cases bss (mss * 6)) [
                        | inl e ↦ inl e
                        | inr e ↦ inr (6, omega (arith, e))
                      ],
                    )
              | inr large ↦
                  rw (usual, large)
                    (
                      ground arith,
                      omega (arith, div-mul-le_self (min bss limit) mss),
                      inr (min bss limit / mss, refl),
                    )
            ]
      ]

-- A size that is at most the one that the buffer has, and at least six segments or all of it.
abbrev pub Fits : ℕ → Option ℕ → ℕ → Type 0
Fits mss size n = (bss : ℕ) × (size ≡ some bss) × (min bss (mss * 6) ≤ n) × (n ≤ bss)

abbrev pub IsAligned : Options → Setting → Type 0
IsAligned opts (send_size n) =
    (mss : ℕ) × (opts.maxseg ≡ some mss) × Fits mss (get_buffer opts.send_buffer) n
IsAligned opts (recv_size n) =
    (mss : ℕ) × (opts.maxseg ≡ some mss) × Fits mss (get_buffer opts.recv_buffer) n

All-append : {A : Type 0} (P : A → Type 0) (xs ys : List A) → All P xs → All P ys → All P (xs ++ ys)
All-append P [] ys h k = k
All-append P (x ∷ xs) ys (h, t) k = (h, All-append P xs ys t k)

align_one-All :
    (P : Setting → Type 0) (set : ℕ → Setting) (mss limit : ℕ) (size : Option ℕ)
    → ((n : ℕ) → Fits mss size n → P (set n))
    → All P (align_one set mss limit size)
unfolding align_one
align_one-All P set mss limit none fits = tt
align_one-All P set mss limit (some bss) fits =
    let (lower, upper, _) = calc_buffer_size-bounds mss bss limit in
    (fits (calc_buffer_size mss bss limit) (bss, refl, lower, upper), tt)

align_both-IsAligned :
    (opts : Options) (limit : ℕ) (maxseg : Option ℕ)
    → opts.maxseg ≡ maxseg
    → All (IsAligned opts) (align_both opts limit maxseg)
unfolding align_both
align_both-IsAligned opts limit none e = tt
align_both-IsAligned opts limit (some mss) e = elim (Bool-cases (mss == 0)) [
  | inl zero_mss ↦ rw zero_mss tt
  | inr positive ↦ rw positive (
      All-append (IsAligned opts) _ _
        (align_one-All (IsAligned opts) send_size mss limit (get_buffer opts.send_buffer)
          λ n fits. (mss, e, fits))
        (align_one-All (IsAligned opts) recv_size mss limit (get_buffer opts.recv_buffer)
          λ n fits. (mss, e, fits)))
]

-- In the aligning mode `nrdpx_socket_adjust_buffers` never enlarges a buffer of the socket, and
-- never takes one below six segments that has held as many.
pub socket_adjust_buffers-IsAligned :
    (opts : Options) (limit : ℕ) → All (IsAligned opts) (socket_adjust_buffers opts true limit).1
unfolding socket_adjust_buffers
socket_adjust_buffers-IsAligned opts limit = align_both-IsAligned opts limit opts.maxseg refl
