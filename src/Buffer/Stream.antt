-- ===== src/Buffer/Stream.antt =====
-- A buffer as a queue of bytes.
use nuords_proxy.Prelude.{
  ℕ, zero, suc, ◌+◌, ◌-◌, ◌≤◌, ◌≡◌, refl, ap, ◌∙◌, sym, inl, inr, Bool-cases, ltb, ◌==◌, List, [],
  ◌∷◌, ◌++◌, append-nil, length, take, drop, replicate, length-replicate, length-append,
  length-take, length-drop, take-append, take-append_le, Bytes, arith,
}
use nuords_proxy.Buffer.{
  Buffer, buffer_size_min, empty_buffer, content, received, move_down, consumed, grow,
}

pub record IsBuffer (b : Buffer) : Type 0 where
  pub length-bytes : length b.bytes ≡ b.size
  pub pos_le : b.pos ≤ b.size

pub empty_buffer-IsBuffer : IsBuffer empty_buffer
unfolding empty_buffer
empty_buffer-IsBuffer = record {
  length-bytes = length-replicate {A = ℕ} buffer_size_min 0;
  pos_le = omega arith;
}

pub received-IsBuffer :
    (bytes : Bytes) (b : Buffer)
    → IsBuffer b
    → length bytes ≤ b.size - b.pos
    → IsBuffer (received bytes b)
unfolding received
received-IsBuffer bytes b w le =
    let e = w.length-bytes in
    let h = w.pos_le in
    record {
      length-bytes = omega (
        arith,
        length-append (take b.pos b.bytes ++ bytes) (drop (b.pos + length bytes) b.bytes),
        length-append (take b.pos b.bytes) bytes,
        length-take b.pos b.bytes,
        length-drop (b.pos + length bytes) b.bytes,
      );
      pos_le = omega arith;
    }

pub content-received :
    (bytes : Bytes) (b : Buffer)
    → IsBuffer b
    → length bytes ≤ b.size - b.pos
    → content (received bytes b) ≡ content b ++ bytes
unfolding received
content-received bytes b w le =
    let e = w.length-bytes in
    let h = w.pos_le in
    let rest = drop (b.pos + length bytes) b.bytes in
    take-append (content b ++ bytes) rest (b.pos + length bytes)
      (omega (arith, length-append (content b) bytes, length-take b.pos b.bytes))

length-move_down :
    (n k : ℕ) (bytes : Bytes) → n + k ≤ length bytes → length (move_down n k bytes) ≡ length bytes
unfolding move_down
length-move_down n k bytes le = omega (
  arith,
  length-append (take k (drop n bytes)) (drop k bytes),
  length-take k (drop n bytes),
  length-drop n bytes,
  length-drop k bytes,
)

pub consumed-IsBuffer : (n : ℕ) (b : Buffer) → IsBuffer b → n ≤ b.pos → IsBuffer (consumed n b)
unfolding consumed
consumed-IsBuffer n b w le =
    let e = w.length-bytes in
    let h = w.pos_le in
    elim (Bool-cases (n == b.pos)) [
      | inl all ↦ rw all (record { length-bytes = e; pos_le = omega arith })
      | inr part ↦ rw part (record {
        length-bytes = length-move_down n (b.pos - n) b.bytes (omega arith) ∙ e;
        pos_le = omega arith;
      })
    ]

take-nil : {A : Type 0} (n : ℕ) → (xs : List A) → xs ≡ [] → take n xs ≡ []
take-nil zero xs e = refl
take-nil (suc n) [] e = refl
take-nil (suc n) (x ∷ xs) e = cc

take-split :
    {A : Type 0} (n m k : ℕ) (xs : List A)
    → n + k ≡ m
    → take m xs ≡ take n (take m xs) ++ take k (drop n xs)
take-split zero m k xs e = ap (λ i. take i xs) (omega arith)
take-split (suc n) zero k xs e = absurd (omega arith)
take-split (suc n) (suc m) k [] e = sym (take-nil k [] refl)
take-split (suc n) (suc m) k (x ∷ xs) e = ap (◌∷◌ x) (take-split n m k xs (omega arith))

take_self : {A : Type 0} (n : ℕ) (xs : List A) → take n (take n xs) ≡ take n xs
take_self zero xs = refl
take_self (suc n) [] = refl
take_self (suc n) (x ∷ xs) = ap (◌∷◌ x) (take_self n xs)

-- What is sent is the front of the content, and the rest stays.
pub content-consumed :
    (n : ℕ) (b : Buffer)
    → IsBuffer b
    → n ≤ b.pos
    → content b ≡ take n (content b) ++ content (consumed n b)
unfolding consumed move_down
content-consumed n b w le =
    let e = w.length-bytes in
    let h = w.pos_le in
    elim (Bool-cases (n == b.pos)) [
      | inl all ↦
          let same : n ≡ b.pos = ground arith in
          rw all
            (sym (append-nil _ ∙ (ap (λ k. take k (content b)) same ∙ take_self b.pos b.bytes)))
      | inr part ↦ rw part (
          take-split n b.pos (b.pos - n) b.bytes (omega arith)
          ∙ ap (λ rest. take n (content b) ++ rest)
              (sym (
                take-append (take (b.pos - n) (drop n b.bytes)) (drop (b.pos - n) b.bytes)
                  (b.pos - n)
                  (omega
                    (arith, length-take (b.pos - n) (drop n b.bytes), length-drop n b.bytes)))))
    ]

pub grow-IsBuffer : (size : ℕ) (b : Buffer) → IsBuffer b → IsBuffer (grow size b)
unfolding grow
grow-IsBuffer size b w =
    let e = w.length-bytes in
    let h = w.pos_le in
    elim (Bool-cases (ltb b.size size)) [
      | inr kept ↦ rw kept w
      | inl larger ↦ rw larger (record {
        length-bytes =
            let zeros : Bytes = replicate (size - b.size) 0 in
            ground (arith, length-append b.bytes zeros, length-replicate {A = ℕ} (size - b.size) 0);
        pos_le = ground arith;
      })
    ]

pub content-grow : (size : ℕ) (b : Buffer) → IsBuffer b → content (grow size b) ≡ content b
unfolding grow
content-grow size b w =
    let e = w.length-bytes in
    let h = w.pos_le in
    elim (Bool-cases (ltb b.size size)) [
      | inr kept ↦ rw kept refl
      | inl larger ↦
          rw larger (take-append_le b.bytes (replicate (size - b.size) 0) b.pos (omega arith))
    ]
